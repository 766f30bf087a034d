-- ===== src/Cache/Sound.antt =====
-- A condition on the items that a cache file holds, and how `Get` and `Put` deal with it.
use modctl.Prelude.{
  ℕ, ◌≡◌, sym, ap, ◌∙◌, subst, inl, inr, true, Option, none, some, List, [], ◌∷◌, arith, Bool-cases,
  Text, text_eq, text_eq_sound, ok, ◌>>=◌, >>=-eq-ok, ok-injective,
}
use modctl.Cache.{
  err, CacheError, Item, CacheFile, Outcomes, find, fresh, is_expired, get, put, prune, insert,
  insert_all, read_items,
}
use modctl.Cache.Items.{
  tail-is_map, head-is_map, is_map, find-insert, find-none-prune, is_map-insert, is_map-prune,
}
use modctl.Cache.PutGet.{IsRange, put-eq-ok, read_items-is_map}

-- What is left when the items that are expired are gone was there before.
find-prune-some :
    (now : ℕ) (k : Text) (is : List Item) (i : Item)
    → is_map is ≡ true
    → find k (prune now is) ≡ some i
    → find k is ≡ some i
unfolding prune
find-prune-some now k [] i h e = e
find-prune-some now k (j ∷ is) i h e = elim (Bool-cases (text_eq k j.path)) [
  | inl same ↦
      let key = text_eq_sound k j.path same in
      let none_left =
        find-none-prune now k is (subst (λ x. find x is ≡ none) (sym key) (head-is_map j is h)) in
      ground (arith, none_left)
  | inr other ↦ ground (arith, find-prune-some now k is i (tail-is_map j is h))
]

-- Each item of the file meets the condition on its path.
abbrev pub AllItems : (Text → Item → Type 0) → CacheFile → Type 0
AllItems P file =
    (is : List Item) (k : Text) (i : Item) → read_items file ≡ ok is → find k is ≡ some i → P k i

pub AllItems-empty :
    (P : Text → Item → Type 0) (file : CacheFile) → read_items file ≡ ok [] → AllItems P file
AllItems-empty P file none_there is k i read found =
    let empty : [] ≡ is = ok-injective (sym none_there ∙ read) in
    cc (subst (λ x. find k x ≡ some i) (sym empty) found)

pub AllItems-unread :
    (P : Text → Item → Type 0) (file : CacheFile) (e : CacheError)
    → read_items file ≡ err e
    → AllItems P file
AllItems-unread P file e failed is k i read found = cc (failed, read)

fresh-eq-ok : (now : ℕ) (o : Option Item) (i : Item) → fresh now o ≡ ok i → o ≡ some i
unfolding fresh
fresh-eq-ok now none i h = cc
fresh-eq-ok now (some j) i h = elim (Bool-cases (is_expired now j)) [
  | inl e ↦ ground arith
  | inr e ↦ ground arith
]

get-bind :
    (o : Outcomes) (now : ℕ) (file : CacheFile) (k : Text) (i : Item)
    → get o now file k ≡ ok i
    → (read_items file >>= (λ is. fresh now (find k is))) ≡ ok i
unfolding get
get-bind o now file k i e = ground arith

-- What `Get` finds meets the condition.
pub get-AllItems :
    (P : Text → Item → Type 0) (o : Outcomes) (now : ℕ) (file : CacheFile) (k : Text) (i : Item)
    → AllItems P file
    → get o now file k ≡ ok i
    → P k i
get-AllItems P o now file k i all e =
    let (is, read, found) =
      >>=-eq-ok (read_items file) (λ is. fresh now (find k is)) (get-bind o now file k i e) in
    all is k i read (fresh-eq-ok now (find k is) i found)

module _ (P : Text → Item → Type 0) where
  inserted-P :
      (is : List Item) (k : Text) (i j : Item)
      → (find k is ≡ some j → P k j)
      → P i.path i
      → find k (insert i is) ≡ some j
      → P k j
  inserted-P is k i j old new e = elim (Bool-cases (text_eq k i.path)) [
    | inl same ↦
        let both = find-insert k i is in
        let j_is : ◌≡◌ {A = Option Item} (some i) (some j) = ground (arith, both) in
        subst (λ x. P x j) (sym (text_eq_sound k i.path same))
          (subst (P i.path) (some-injective j_is) new)
    | inr other ↦ old (ground (arith, find-insert k i is))
  ]
    where
      some-injective : ◌≡◌ {A = Option Item} (some i) (some j) → i ≡ j
      some-injective q = cc q

  -- `Put` of an item that meets the condition keeps it.
  pub put-AllItems :
      (range : List Item → List Item) (o : Outcomes) (now : ℕ) (file file' : CacheFile) (i : Item)
      → IsRange range
      → put range o now file i ≡ ok file'
      → P i.path i
      → AllItems P file
      → AllItems P file'
  unfolding read_items
  put-AllItems range o now file file' i lawful e new all is k j read found =
      let (was, before, same) = put-eq-ok range o now file file' i e in
      let kept = prune now (insert i was) in
      let m = is_map-insert i was (read_items-is_map file was before) in
      let listed : insert_all (range kept) [] ≡ is =
        ok-injective (subst (λ f. read_items f ≡ ok is) same read) in
      let in_kept : find k kept ≡ some j =
        sym (lawful kept (is_map-prune now (insert i was) m) k) ∙ ap (find k) listed ∙ found in
      inserted-P was k i j (all was k j before) new
        (find-prune-some now k (insert i was) j m in_kept)
