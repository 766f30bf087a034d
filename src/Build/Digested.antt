-- ===== src/Build/Digested.antt =====
-- What the computation of a digest yields on a disk that builds and changes have led to.
use modctl.Cache.Sound.{get-AllItems}
use modctl.Prelude.{
  none, inr, inr, inl, ◌∙◌, Bool-cases, sym, subst, text_eq, ℕ, ◌≡◌, refl, Bool, true, false,
  Option, some, arith, Text, length, Result, ok, err,
}
use modctl.Cache.{Item, CacheFile, CacheError, get}
use modctl.Build.{opened, Bytes, FileInfo, Reader, pipe_reader, rest_of}
use modctl.Build.Digest.{
  cached_or, compute_digest_and_size, Calls, valid_item, retrieve_cache, reset_reader,
  digest_computed, compute_digest,
}
use modctl.Build.Fresh.{Reach-Fresh, digested, Job, Fresh, Reach, Disk, rest_of-opened}

-- A reader of the whole content, with its hash and its size.
abbrev pub IsDigestOf : (Bytes → Text) → Bytes → Option (Reader × Text × ℕ) → Type 0
IsDigestOf hash content result =
    (r : Reader) × (result ≡ some (r, hash content, length content)) × (rest_of r ≡ content)

-- The copy, the seek and the second encoding end well.
pub record IsReadable (c : Calls) (content : Bytes) : Type 0 where
  pub copied : c.copied ≡ true
  pub sought : c.sought ≡ true
  pub again : c.encoded_again ≡ some (pipe_reader content)

valid_item-eq-some :
    (c : Calls) (info : FileInfo) (r : Result CacheError Item) (d : Text) (n : ℕ)
    → valid_item c info r ≡ some (d, n)
    → (i : Item) × (r ≡ ok i) × (i.mod_time ≡ info.mod_time) × (i.digest ≡ d) × (i.size ≡ n)
unfolding valid_item
valid_item-eq-some c info (err e) d n h = cc h
valid_item-eq-some c info (ok i) d n h = (i, refl, ground arith, ground arith, ground arith)

retrieve_cache-eq-some :
    (c : Calls) (file : CacheFile) (path : Text) (info : FileInfo) (d : Text) (n : ℕ)
    → retrieve_cache c file path info ≡ some (d, n)
    → valid_item c info (get c.on_get c.get_time file path) ≡ some (d, n)
unfolding retrieve_cache
retrieve_cache-eq-some c file path info d n h = ground arith

reset-opened :
    (c : Calls) (seekable : Bool) (content : Bytes)
    → IsReadable c content
    → reset_reader c (opened seekable content) ≡ some (opened seekable content)
unfolding reset_reader
reset-opened c true content can = simp (can.sought) refl
reset-opened c false content can = can.again

compute_digest-IsDigestOf :
    (c : Calls) (file : CacheFile) (raw : Bool) (path : Text) (info : FileInfo) (seekable : Bool)
    (content : Bytes)
    → IsReadable c content
    → IsDigestOf c.hash content (compute_digest c file raw path info (opened seekable content)).1
unfolding compute_digest digest_computed
compute_digest-IsDigestOf c file raw path info seekable content can =
    simp (can.copied, rest_of-opened seekable content, reset-opened c seekable content can)
      (opened seekable content, refl, rest_of-opened seekable content)

module _ (hash : Bytes → Text) (s : Disk) (fresh : Fresh hash s) (j : Job hash s)
    (raw : text_eq j.media_type j.calls.raw_weight ≡ true) where
  hit-IsDigestOf :
      (d : Text) (n : ℕ)
      → retrieve_cache j.calls s.cache j.path j.info ≡ some (d, n)
      → (d ≡ hash j.content) × (n ≡ length j.content)
  hit-IsDigestOf d n h =
      let (i, found, time, of_d, of_n) =
        valid_item-eq-some j.calls j.info (get j.calls.on_get j.calls.get_time s.cache j.path) d n
          (retrieve_cache-eq-some j.calls s.cache j.path j.info d n h) in
      let current =
        (get-AllItems _ j.calls.on_get j.calls.get_time s.cache j.path i fresh.items found).1
          j.info.mod_time j.content (j.of_file raw) time in
      (sym of_d ∙ current.0, sym of_n ∙ current.1)

  cached-IsDigestOf :
      (hit : Option (Text × ℕ)) (p : CacheFile × Option (Reader × Text × ℕ))
      → ((d : Text) (n : ℕ) → hit ≡ some (d, n) → (d ≡ hash j.content) × (n ≡ length j.content))
      → IsDigestOf hash j.content p.1
      → IsDigestOf hash j.content (cached_or j.calls s.cache (opened j.seekable j.content) hit p).1
  unfolding cached_or
  cached-IsDigestOf none p of_hit of_p = of_p
  cached-IsDigestOf (some (d, n)) p of_hit of_p =
      let (same, size) = of_hit d n refl in
      (opened j.seekable j.content, cc (same, size), rest_of-opened j.seekable j.content)

-- Whatever files were written or removed and whatever layers were built before, where a file is
-- always written at a later time: the digest and the size of a layer whose content can be read, from
-- the cache or computed, are those of its content, and the reader gives the whole of it.
pub digested-IsDigestOf :
    (hash : Bytes → Text) (s : Disk)
    → Reach hash s
    → (j : Job hash s) → IsReadable j.calls j.content
    → IsDigestOf hash j.content (digested hash s j).1
unfolding compute_digest_and_size
digested-IsDigestOf hash s reach j can =
    let computed = λ (raw : Bool).
      subst
        (λ h.
          IsDigestOf h j.content
            (compute_digest j.calls s.cache raw j.path j.info (opened j.seekable j.content)).1)
        j.hashes
        (compute_digest-IsDigestOf j.calls s.cache raw j.path j.info j.seekable j.content can) in
    elim (Bool-cases (text_eq j.media_type j.calls.raw_weight)) [
      | inl e ↦ simp e (
          cached-IsDigestOf hash s (Reach-Fresh hash s reach) j e
            (retrieve_cache j.calls s.cache j.path j.info)
            (compute_digest j.calls s.cache true j.path j.info (opened j.seekable j.content))
            (hit-IsDigestOf hash s (Reach-Fresh hash s reach) j e) (computed true))
      | inr e ↦ simp e (computed false)
    ]
