-- ===== src/Cache.antt =====
-- internal/cache/cache.go: the cache of file digests in one JSON file. Times are nanoseconds; the
-- file lock and the context are given by their outcomes.
use modctl.Prelude.{
  ℕ, zero, suc, ◌+◌, ◌-◌, ◌*◌, ◌/◌, ◌%◌, ◌^◌, ◌≤◌, ◌<◌, String, ◌≡◌, refl, sym, ap, ◌∙◌, subst, ◌≢◌,
  ◌↔◌, ◌⊎◌, inl, inr, Bool, true, false, not, ◌&&◌, ◌||◌, Option, none, some, List, [], ◌∷◌, ◌++◌,
  append_assoc, append-nil, arith, ltb, leb, ◌==◌, if◌then◌else◌, ==_iff, Bool-cases, Option-cases,
  &&-eq-true, ||_assoc, ||-eq-false, length, length-append, any, all, any-append, all-append, All,
  All-append, Text, codes, text_eq, text_eq_refl, text_eq_sound, text_eq_iff, has_prefix,
  has_prefix-append, text_lt, rune_bytes, byte_length, byte_length-append, mem, mem-append, Result,
  is_ok, ok, err, ◌>>=◌, >>=-eq-ok,
}
pub mod Items
pub mod PutGet
pub mod Sound
pub mod Samples

pub record Item : Type 0 where
  pub path : Text
  pub mod_time : ℕ
  pub size : ℕ
  pub digest : Text
  pub created_at : ℕ

-- What `json` makes of the file, if it can be read.
pub data CacheFile : Type 0 where
  no_file unreadable empty_file malformed : CacheFile
  stored : List Item → CacheFile

pub data CacheError : Type 0 where
  context_error lock_error read_error decode_error write_error not_found : CacheError

-- The outcomes of `ctx.Err`, of the lock, and of `os.WriteFile`.
pub record Outcomes : Type 0 where
  pub cancelled : Bool
  pub locked : Bool
  pub written : Bool

-- `24 * time.Hour`.
abbrev pub ttl : ℕ
ttl = 24 * 3600 * 1000000000

-- A map from paths to items, as the list of its items, each under its own path.
abbrev pub find : Text → List Item → Option Item
find k [] = none
find k (i ∷ is) = if text_eq k i.path then some i else find k is

abbrev pub delete : Text → List Item → List Item
delete k [] = []
delete k (i ∷ is) = if text_eq k i.path then delete k is else i ∷ delete k is

unfoldable pub insert : Item → List Item → List Item
insert i is = i ∷ delete i.path is

unfoldable pub insert_all : List Item → List Item → List Item
unfolding insert
insert_all [] m = m
insert_all (i ∷ is) m = insert_all is (insert i m)

unfoldable pub read_items : CacheFile → Result CacheError (List Item)
unfolding insert_all
read_items no_file = ok []
read_items unreadable = err read_error
read_items empty_file = ok []
read_items malformed = err decode_error
read_items (stored is) = ok (insert_all is [])

-- `now.Sub(item.CreatedAt) > TTL`; a time in the future is not expired.
unfoldable pub is_expired : ℕ → Item → Bool
is_expired now i = ltb ttl (now - i.created_at)

unfoldable pub prune : ℕ → List Item → List Item
unfolding is_expired
prune now [] = []
prune now (i ∷ is) = if is_expired now i then prune now is else i ∷ prune now is

unfoldable pub fresh : ℕ → Option Item → Result CacheError Item
unfolding is_expired
fresh now none = err not_found
fresh now (some i) = if is_expired now i then err not_found else ok i

unfoldable pub get : Outcomes → ℕ → CacheFile → Text → Result CacheError Item
unfolding read_items fresh
get o now file path =
    if o.cancelled
    then err context_error
    else if not o.locked
    then err lock_error
    else (do items ← read_items file; fresh now (find path items))

-- The end of `Put`: the order in which Go ranges over a map is a parameter.
unfoldable pub store :
    (List Item → List Item) → Bool → ℕ → Item → List Item → Result CacheError CacheFile
unfolding prune insert
store range written now item items =
    if written then ok (stored (range (prune now (insert item items)))) else err write_error

unfoldable pub put :
    (List Item → List Item) → Outcomes → ℕ → CacheFile → Item → Result CacheError CacheFile
unfolding read_items store
put range o now file item =
    if o.cancelled
    then err context_error
    else if not o.locked
    then err lock_error
    else (do items ← read_items file; store range o.written now item items)
