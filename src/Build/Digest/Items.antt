-- ===== src/Build/Digest/Items.antt =====
-- What the computation of a digest makes of the cache file.
use modctl.Prelude.{
  ℕ, ◌≡◌, refl, inl, inr, Bool, true, false, Option, none, some, Bool-cases, Text, text_eq, length,
  Result, ok, err,
}
use modctl.Cache.{
  Item, CacheFile, CacheError, empty_file, malformed, put, read_items, context_error, lock_error,
  read_error, decode_error, write_error, not_found,
}
use modctl.Cache.PutGet.{IsRange}
use modctl.Cache.Sound.{AllItems-unread, AllItems-empty, AllItems, put-AllItems}
use modctl.Build.{Bytes, FileInfo, Reader, rest_of}
use modctl.Build.Digest.{
  Calls, Torn, untouched, truncated, cut_short, retrieve_cache, left_of, after_put, update_cache,
  reset_reader, digest_computed, compute_digest, cached_or, compute_digest_and_size,
}

-- The item that a build stores.
abbrev pub item_of : Calls → Text → FileInfo → Bytes → Item
item_of c path info content = record {
  path = path;
  mod_time = info.mod_time;
  size = length content;
  digest = c.hash content;
  created_at = c.created_at;
}

module _ (c : Calls) (lawful : IsRange c.range) (P : Text → Item → Type 0) where
  AllItems-left_of :
      (torn : Torn) (file : CacheFile) → AllItems P file → AllItems P (left_of c torn file)
  unfolding left_of read_items
  AllItems-left_of untouched file all = all
  AllItems-left_of truncated file all = AllItems-empty P empty_file refl
  AllItems-left_of cut_short file all = AllItems-unread P malformed decode_error refl

  AllItems-after_put :
      (file : CacheFile) (r : Result CacheError CacheFile)
      → AllItems P file
      → ((file' : CacheFile) → r ≡ ok file' → AllItems P file')
      → AllItems P (after_put c file r)
  unfolding after_put
  AllItems-after_put file (ok file') all new = new file' refl
  AllItems-after_put file (err context_error) all new = all
  AllItems-after_put file (err lock_error) all new = all
  AllItems-after_put file (err read_error) all new = all
  AllItems-after_put file (err decode_error) all new = all
  AllItems-after_put file (err write_error) all new = AllItems-left_of c.torn file all
  AllItems-after_put file (err not_found) all new = all

  module _ (file : CacheFile) (path : Text) (info : FileInfo) (content : Bytes)
      (all : AllItems P file) where
    AllItems-update_cache :
        P path (item_of c path info content)
        → AllItems P (update_cache c file path info.mod_time (length content) (c.hash content))
    unfolding update_cache
    AllItems-update_cache new = elim (Bool-cases c.has_cache) [
      | inl e ↦ simp e (
          AllItems-after_put file
            (put c.range c.on_put c.put_time file (item_of c path info content)) all
            (λ file' done.
              put-AllItems P c.range c.on_put c.put_time file file' (item_of c path info content)
                lawful done new all))
      | inr e ↦ simp e all
    ]

    AllItems-digest_computed :
        (raw : Bool) (o : Option Reader)
        → (raw ≡ true → P path (item_of c path info content))
        → AllItems P (digest_computed c file raw path info content o).0
    unfolding digest_computed
    AllItems-digest_computed raw none new = all
    AllItems-digest_computed true (some r) new = AllItems-update_cache (new refl)
    AllItems-digest_computed false (some r) new = all

    AllItems-compute_digest :
        (raw : Bool) (reader : Reader)
        → rest_of reader ≡ content
        → (raw ≡ true → P path (item_of c path info content))
        → AllItems P (compute_digest c file raw path info reader).0
    unfolding compute_digest
    AllItems-compute_digest raw reader same new = elim (Bool-cases c.copied) [
      | inl e ↦ simp (e, same) (AllItems-digest_computed raw (reset_reader c reader) new)
      | inr e ↦ simp e all
    ]

    AllItems-cached_or :
        (reader : Reader) (hit : Option (Text × ℕ)) (p : CacheFile × Option (Reader × Text × ℕ))
        → AllItems P p.0
        → AllItems P (cached_or c file reader hit p).0
    unfolding cached_or
    AllItems-cached_or reader none p of_p = of_p
    AllItems-cached_or reader (some hit) p of_p = all

    -- The items of the cache file meet a condition that the new item meets, if there is one.
    pub AllItems-compute_digest_and_size :
        (media_type : Text) (reader : Reader)
        → rest_of reader ≡ content
        → (text_eq media_type c.raw_weight ≡ true → P path (item_of c path info content))
        → AllItems P (compute_digest_and_size c file media_type path info reader).0
    unfolding compute_digest_and_size
    AllItems-compute_digest_and_size media_type reader same new =
        elim (Bool-cases (text_eq media_type c.raw_weight)) [
          | inl e ↦ simp e (
              AllItems-cached_or reader (retrieve_cache c file path info)
                (compute_digest c file true path info reader)
                (AllItems-compute_digest true reader same (λ t. new e)))
          | inr e ↦ simp e (AllItems-compute_digest false reader same (λ t. cc t))
        ]
