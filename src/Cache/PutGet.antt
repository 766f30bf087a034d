-- ===== src/Cache/PutGet.antt =====
-- `Get` behind a `Put` that ended well.
use modctl.Prelude.{
  ok-injective, ℕ, ◌≤◌, ◌≡◌, refl, sym, ap, ◌∙◌, subst, Bool, true, false, Option, some, List, [],
  arith, if◌then◌else◌, Text, text_eq, ok, ◌>>=◌, >>=-eq-ok,
}
use modctl.Cache.{
  store, Item, CacheFile, Outcomes, no_file, unreadable, empty_file, malformed, stored, find,
  insert, insert_all, read_items, prune, fresh, get, put,
}
use modctl.Cache.Items.{
  is_map, find-insert, is_map-insert, is_map-insert_all, is_map-prune, fresh-prune,
}

-- A call whose context is live and that holds the lock.
abbrev pub IsLive : Outcomes → Type 0
IsLive o = (o.cancelled ≡ false) × (o.locked ≡ true)

-- Go ranges over each entry of a map once.
abbrev pub IsRange : (List Item → List Item) → Type 0
IsRange range =
    (is : List Item) → is_map is ≡ true → (k : Text) → find k (insert_all (range is) []) ≡ find k is

pub read_items-is_map :
    (file : CacheFile) (is : List Item) → read_items file ≡ ok is → is_map is ≡ true
unfolding read_items
read_items-is_map no_file is h = subst (λ x. is_map x ≡ true) (ok-injective h) refl
read_items-is_map unreadable is h = cc
read_items-is_map empty_file is h = subst (λ x. is_map x ≡ true) (ok-injective h) refl
read_items-is_map malformed is h = cc
read_items-is_map (stored ls) is h =
    subst (λ x. is_map x ≡ true) (ok-injective h) (is_map-insert_all ls [] refl)

get-live :
    (o : Outcomes) (now : ℕ) (file : CacheFile) (is : List Item) (k : Text)
    → IsLive o
    → read_items file ≡ ok is
    → get o now file k ≡ fresh now (find k is)
unfolding get
get-live o now file is k (c, l) r = rw c (rw l (rw r refl))

put-bind :
    (range : List Item → List Item) (o : Outcomes) (now : ℕ) (file file' : CacheFile) (i : Item)
    → put range o now file i ≡ ok file'
    → (read_items file >>= store range o.written now i) ≡ ok file'
unfolding put
put-bind range o now file file' i e = ground arith

store-eq-ok :
    (range : List Item → List Item) (written : Bool) (now : ℕ) (i : Item) (is : List Item)
    (file' : CacheFile)
    → store range written now i is ≡ ok file'
    → file' ≡ stored (range (prune now (insert i is)))
unfolding store
store-eq-ok range true now i is file' e = sym (ok-injective e)
store-eq-ok range false now i is file' e = cc

pub put-eq-ok :
    (range : List Item → List Item) (o : Outcomes) (now : ℕ) (file file' : CacheFile) (i : Item)
    → put range o now file i ≡ ok file'
    → (is : List Item) × (read_items file ≡ ok is)
      × (file' ≡ stored (range (prune now (insert i is))))
put-eq-ok range o now file file' i e =
    let (is, read, stores) =
      >>=-eq-ok (read_items file) (store range o.written now i)
        (put-bind range o now file file' i e) in
    (is, read, store-eq-ok range o.written now i is file' stores)

fresh-if :
    (later : ℕ) (b : Bool) (x y : Option Item)
    → fresh later (if b then x else y) ≡ (if b then fresh later x else fresh later y)
fresh-if later true x y = refl
fresh-if later false x y = refl

-- Once an item is stored, and from that time on, `Get` finds the item under its path as long as it
-- is not expired, and under every other path what it would have found in the file before: the
-- items that `Put` prunes are missed by no `Get`.
pub get-put :
    (range : List Item → List Item) (o o' : Outcomes) (now later : ℕ) (file file' : CacheFile)
    (i : Item) (k : Text)
    → IsRange range
    → IsLive o'
    → now ≤ later
    → put range o now file i ≡ ok file'
    → get o' later file' k
      ≡ (if text_eq k i.path then fresh later (some i) else get o' later file k)
unfolding read_items
get-put range o o' now later file file' i k lawful live h e =
    let (is, read, same) = put-eq-ok range o now file file' i e in
    let m = is_map-insert i is (read_items-is_map file is read) in
    ap (λ f. get o' later f k) same
    ∙ get-live o' later (stored (range (prune now (insert i is))))
        (insert_all (range (prune now (insert i is))) []) k live refl
    ∙ ap (fresh later) (lawful (prune now (insert i is)) (is_map-prune now (insert i is) m) k)
    ∙ fresh-prune now later k (insert i is) h m
    ∙ ap (fresh later) (find-insert k i is)
    ∙ fresh-if later (text_eq k i.path) (some i) (find k is)
    ∙ ap (λ r. if text_eq k i.path then fresh later (some i) else r)
        (sym (get-live o' later file is k live read))
