-- ===== src/Cache/Items.antt =====
-- The cache's map: what `find` finds after each operation.
use modctl.Prelude.{
  ℕ, ◌≤◌, ◌≡◌, refl, sym, ap, ◌∙◌, subst, inl, inr, Bool, true, false, ◌&&◌, none, some, List, [],
  ◌∷◌, arith, if◌then◌else◌, Bool-cases, Text, text_eq, text_eq_refl, text_eq_sound,
}
use modctl.Cache.{Item, find, delete, insert, insert_all, prune, is_expired, fresh}

-- Each path stands once.
abbrev pub is_map : List Item → Bool
is_map [] = true
is_map (i ∷ is) = (elim (find i.path is) [ none ↦ true | some j ↦ false ]) && is_map is

same_key : (k p q : Text) → text_eq k p ≡ true → text_eq k q ≡ true → text_eq p q ≡ true
same_key k p q a b = subst (λ x. text_eq x q ≡ true) (text_eq_sound k p a) b

pub head-is_map : (i : Item) (is : List Item) → is_map (i ∷ is) ≡ true → find i.path is ≡ none
head-is_map i is h = ground arith

pub tail-is_map : (i : Item) (is : List Item) → is_map (i ∷ is) ≡ true → is_map is ≡ true
tail-is_map i is h = ground arith

find-delete :
    (k p : Text) (is : List Item) → find k (delete p is) ≡ (if text_eq k p then none else find k is)
find-delete k p [] = ground arith
find-delete k p (i ∷ is) = elim (Bool-cases (text_eq p i.path)) [
  | inl e ↦
      let same = ap (text_eq k) (text_eq_sound p i.path e) in
      rw e (find-delete k p is ∙ ground (arith, same))
  | inr e ↦ rw e (ground (arith, find-delete k p is, same_key k p i.path))
]

pub find-insert :
    (k : Text) (i : Item) (is : List Item)
    → find k (insert i is) ≡ (if text_eq k i.path then some i else find k is)
unfolding insert
find-insert k i is = ground (arith, find-delete k i.path is)

is_map-delete : (p : Text) (is : List Item) → is_map is ≡ true → is_map (delete p is) ≡ true
is_map-delete p [] h = refl
is_map-delete p (i ∷ is) h = ground (arith, is_map-delete p is, find-delete i.path p is)

pub is_map-insert : (i : Item) (is : List Item) → is_map is ≡ true → is_map (insert i is) ≡ true
unfolding insert
is_map-insert i is h =
    ground (arith, is_map-delete i.path is h, find-delete i.path i.path is, text_eq_refl i.path)

pub is_map-insert_all : (is m : List Item) → is_map m ≡ true → is_map (insert_all is m) ≡ true
unfolding insert_all
is_map-insert_all [] m h = h
is_map-insert_all (i ∷ is) m h = is_map-insert_all is (insert i m) (is_map-insert i m h)

pub find-none-prune :
    (now : ℕ) (k : Text) (is : List Item) → find k is ≡ none → find k (prune now is) ≡ none
unfolding prune
find-none-prune now k [] h = refl
find-none-prune now k (i ∷ is) h = ground (arith, find-none-prune now k is)

pub is_map-prune : (now : ℕ) (is : List Item) → is_map is ≡ true → is_map (prune now is) ≡ true
unfolding prune
is_map-prune now [] h = refl
is_map-prune now (i ∷ is) h = ground (arith, is_map-prune now is, find-none-prune now i.path is)

is_expired_mono :
    (now later : ℕ) (i : Item) → now ≤ later → is_expired now i ≡ true → is_expired later i ≡ true
unfolding is_expired
is_expired_mono now later i h e = ground arith

-- What is pruned is expired from then on.
pub fresh-prune :
    (now later : ℕ) (k : Text) (is : List Item)
    → now ≤ later
    → is_map is ≡ true
    → fresh later (find k (prune now is)) ≡ fresh later (find k is)
unfolding prune fresh
fresh-prune now later k [] h m = refl
fresh-prune now later k (i ∷ is) h m = elim (Bool-cases (text_eq k i.path)) [
  | inl e ↦
      let same = text_eq_sound k i.path e in
      let none_left =
        find-none-prune now k is (subst (λ x. find x is ≡ none) (sym same) (head-is_map i is m)) in
      ground (arith, none_left, is_expired_mono now later i h)
  | inr e ↦ ground (arith, fresh-prune now later k is h (tail-is_map i is m))
]

-- Reading a listing of a map puts its entries over those that are there.
pub find-insert_all :
    (k : Text) (is m : List Item)
    → is_map is ≡ true
    → find k (insert_all is m) ≡ (elim (find k is) [ none ↦ find k m | some j ↦ some j ])
unfolding insert_all
find-insert_all k [] m h = refl
find-insert_all k (i ∷ is) m h = elim (Bool-cases (text_eq k i.path)) [
  | inl e ↦
      let absent =
        subst (λ x. find x is ≡ none) (sym (text_eq_sound k i.path e)) (head-is_map i is h) in
      find-insert_all k is (insert i m) (tail-is_map i is h)
      ∙ ground (arith, absent, find-insert k i m)
  | inr e ↦
      find-insert_all k is (insert i m) (tail-is_map i is h) ∙ ground (arith, find-insert k i m)
]
