-- ===== src/Build/Digest.antt =====
-- pkg/backend/build/builder.go: the digest and the size of a layer's content, with the cache of
-- digests.
use modctl.Prelude.{
  ℕ, Bool, true, false, not, ◌&&◌, ◌||◌, Option, none, some, List, ◌==◌, if◌then◌else◌, Text,
  text_eq, length, Result, ok, err,
}
use modctl.Cache.{
  Item, CacheFile, CacheError, Outcomes, empty_file, malformed, write_error, get, put,
}
use modctl.Build.{Bytes, FileInfo, Reader, file_reader, pipe_reader, rest_of}
pub mod Items

-- What a failed `os.WriteFile` leaves of the cache file.
pub data Torn : Type 0 where
  untouched truncated cut_short : Torn

-- The calls around the digest by their outcomes, and the libraries. `hash` is "sha256:" with the
-- digits of the hash; `same_zone` says that a time has after JSON the location that `os.Stat` gives
-- to times, since `!=` compares it too.
pub record Calls : Type 0 where
  pub hash : Bytes → Text
  pub raw_weight : Text
  pub has_cache : Bool
  pub same_zone : Bool
  pub on_get : Outcomes
  pub get_time : ℕ
  pub on_put : Outcomes
  pub put_time : ℕ
  pub created_at : ℕ
  pub range : List Item → List Item
  pub torn : Torn
  pub copied : Bool
  pub sought : Bool
  pub encoded_again : Option Reader

module _ (c : Calls) where
  unfoldable pub valid_item : FileInfo → Result CacheError Item → Option (Text × ℕ)
  valid_item info (err e) = none
  valid_item info (ok item) =
      if not (item.mod_time == info.mod_time && c.same_zone) || not (item.size == info.size)
      then none
      else some (item.digest, item.size)

  -- `none` is its false.
  unfoldable pub retrieve_cache : CacheFile → Text → FileInfo → Option (Text × ℕ)
  unfolding valid_item
  retrieve_cache file path info =
      if not c.has_cache then none else valid_item info (get c.on_get c.get_time file path)

  unfoldable pub left_of : Torn → CacheFile → CacheFile
  left_of untouched file = file
  left_of truncated file = empty_file
  left_of cut_short file = malformed

  -- The cache file after `Put`; the caller only logs an error.
  unfoldable pub after_put : CacheFile → Result CacheError CacheFile → CacheFile
  unfolding left_of
  after_put file (ok file') = file'
  after_put file (err write_error) = left_of c.torn file
  after_put file (err e) = file

  unfoldable pub update_cache : CacheFile → Text → ℕ → ℕ → Text → CacheFile
  unfolding after_put
  update_cache file path mtime size digest =
      if not c.has_cache
      then file
      else after_put file (
          put c.range c.on_put c.put_time file (record {
            path = path;
            mod_time = mtime;
            size = size;
            digest = digest;
            created_at = c.created_at;
          }))

  -- Of the reader that `io.Copy` has read to its end.
  unfoldable pub reset_reader : Reader → Option Reader
  reset_reader (file_reader whole rest) = if c.sought then some (file_reader whole whole) else none
  reset_reader (pipe_reader rest) = c.encoded_again

  -- What follows `io.Copy`.
  unfoldable pub digest_computed :
      CacheFile
      → Bool
      → Text
      → FileInfo
      → Bytes
      → Option Reader
      → CacheFile × Option (Reader × Text × ℕ)
  unfolding update_cache
  digest_computed file raw path info content none = (file, none)
  digest_computed file raw path info content (some reader) = (
    if raw then update_cache file path info.mod_time (length content) (c.hash content) else file,
    some (reader, c.hash content, length content),
  )

  unfoldable pub compute_digest :
      CacheFile → Bool → Text → FileInfo → Reader → CacheFile × Option (Reader × Text × ℕ)
  unfolding digest_computed reset_reader rest_of
  compute_digest file raw path info reader =
      if not c.copied
      then (file, none)
      else digest_computed file raw path info (rest_of reader) (reset_reader reader)

  unfoldable pub cached_or :
      CacheFile
      → Reader
      → Option (Text × ℕ)
      → CacheFile × Option (Reader × Text × ℕ)
      → CacheFile × Option (Reader × Text × ℕ)
  cached_or file reader (some (digest, size)) computed = (file, some (reader, digest, size))
  cached_or file reader none computed = computed

  -- Only raw weights have their digests in the cache.
  unfoldable pub compute_digest_and_size :
      CacheFile → Text → Text → FileInfo → Reader → CacheFile × Option (Reader × Text × ℕ)
  unfolding retrieve_cache cached_or compute_digest
  compute_digest_and_size file media_type path info reader =
      if text_eq media_type c.raw_weight
      then cached_or file reader (retrieve_cache file path info)
          (compute_digest file true path info reader)
      else compute_digest file false path info reader
