-- ===== src/Build/Fresh.antt =====
-- Builds and changes of the files in any order: the digest of a layer, cached or not, is that of
-- the content that is stored.
use modctl.Prelude.{
  ℕ, ◌≤◌, ◌<◌, ◌≡◌, refl, ap, ◌∙◌, subst, inl, inr, Bool, true, false, Option, none, some, arith,
  if◌then◌else◌, Bool-cases, Text, text_eq, length,
}
use modctl.Cache.{Item, CacheFile, no_file, read_items}
use modctl.Cache.PutGet.{IsRange}
use modctl.Cache.Sound.{AllItems-empty, AllItems}
use modctl.Build.{opened, Bytes, FileInfo, Reader, rest_of}
use modctl.Build.Digest.Items.{item_of, AllItems-compute_digest_and_size}
use modctl.Build.Digest.{Calls, compute_digest_and_size}

-- The files with their times and contents, the time of the last change, and the cache file.
pub record Disk : Type 0 where
  pub clock : ℕ
  pub files : Text → Option (ℕ × Bytes)
  pub cache : CacheFile

pub rest_of-opened :
    (seekable : Bool) (content : Bytes) → rest_of (opened seekable content) ≡ content
unfolding rest_of
rest_of-opened true content = refl
rest_of-opened false content = refl

module _ (hash : Bytes → Text) where
  -- A layer that is to be built: of raw weights, the content is that of the file at its time.
  pub record Job (s : Disk) : Type 0 where
    pub calls : Calls
    pub media_type : Text
    pub path : Text
    pub info : FileInfo
    pub seekable : Bool
    pub content : Bytes
    pub hashes : calls.hash ≡ hash
    pub ranges : IsRange calls.range
    pub of_file :
        text_eq media_type calls.raw_weight ≡ true → s.files path ≡ some (info.mod_time, content)

  abbrev pub digested : (s : Disk) → Job s → CacheFile × Option (Reader × Text × ℕ)
  digested s j =
      compute_digest_and_size j.calls s.cache j.media_type j.path j.info
        (opened j.seekable j.content)

  -- A file is written at a time after all earlier ones, or removed; a layer is built.
  pub data Step (s : Disk) : Disk → Type 0 where
    write :
        (path : Text) (time : ℕ) (content : Bytes)
        → s.clock < time
        → Step s (record {
          clock = time;
          files = λ p. if text_eq p path then some (time, content) else s.files p;
          cache = s.cache;
        })
    remove :
        (path : Text)
        → Step s (record {
          clock = s.clock;
          files = λ p. if text_eq p path then none else s.files p;
          cache = s.cache;
        })
    build :
        (j : Job s) → Step s (record { clock = s.clock; files = s.files; cache = (digested s j).0 })

  pub data Reach : Disk → Type 0 where
    start : Reach (record { clock = 0; files = λ p. none; cache = no_file })
    later : {s t : Disk} → Reach s → Step s t → Reach t

  -- A cached digest that is as old as the file is the file's.
  abbrev pub IsCurrent : Disk → Text → Item → Type 0
  IsCurrent s path item =
      (item.mod_time ≤ s.clock)
      × ((time : ℕ) (content : Bytes)
          → s.files path ≡ some (time, content)
          → item.mod_time ≡ time
          → (item.digest ≡ hash content) × (item.size ≡ length content))

  pub record Fresh (s : Disk) : Type 0 where
    pub times :
        (path : Text) (time : ℕ) (content : Bytes)
        → s.files path ≡ some (time, content)
        → time ≤ s.clock
    pub items : AllItems (IsCurrent s) s.cache

  write_time :
      (s : Disk) (path k : Text) (now time : ℕ) (old new : Bytes)
      → (s.files k ≡ some (time, old) → time ≤ s.clock)
      → s.clock ≤ now
      → (if text_eq k path then some (now, new) else s.files k) ≡ some (time, old)
      → time ≤ now
  write_time s path k now time old new le h e = elim (Bool-cases (text_eq k path)) [
    | inl same ↦ ground arith
    | inr other ↦ ground (arith, le)
  ]

  remove_time :
      (s : Disk) (path k : Text) (time : ℕ) (old : Bytes)
      → (s.files k ≡ some (time, old) → time ≤ s.clock)
      → (if text_eq k path then none else s.files k) ≡ some (time, old)
      → time ≤ s.clock
  remove_time s path k time old le e = elim (Bool-cases (text_eq k path)) [
    | inl same ↦ cc (subst (λ b. (if b then none else s.files k) ≡ some (time, old)) same e)
    | inr other ↦ ground (arith, le)
  ]

  write-IsCurrent :
      (s : Disk) (path k : Text) (now : ℕ) (new : Bytes) (i : Item)
      → s.clock < now
      → IsCurrent s k i
      → IsCurrent
          (record {
            clock = now;
            files = λ p. if text_eq p path then some (now, new) else s.files p;
            cache = s.cache;
          })
          k
          i
  write-IsCurrent s path k now new i h (le, same) = (
    omega arith,
    λ time content e q. elim (Bool-cases (text_eq k path)) [
      | inl here ↦ absurd (ground arith)
      | inr other ↦ same time content (ground arith) q
    ],
  )

  remove-IsCurrent :
      (s : Disk) (path k : Text) (i : Item)
      → IsCurrent s k i
      → IsCurrent
          (record {
            clock = s.clock;
            files = λ p. if text_eq p path then none else s.files p;
            cache = s.cache;
          })
          k
          i
  remove-IsCurrent s path k i (le, same) = (
    le,
    λ time content e q. elim (Bool-cases (text_eq k path)) [
      | inl here ↦ cc (subst (λ b. (if b then none else s.files k) ≡ some (time, content)) here e)
      | inr other ↦ same time content (ground arith) q
    ],
  )

  job-IsCurrent :
      (s : Disk) (j : Job s)
      → Fresh s
      → text_eq j.media_type j.calls.raw_weight ≡ true
      → IsCurrent s j.path (item_of j.calls j.path j.info j.content)
  job-IsCurrent s j fresh raw = (
    fresh.times j.path j.info.mod_time j.content (j.of_file raw),
    λ time content e q.
        let same : j.content ≡ content = cc (j.of_file raw, e) in
        (ap (λ h. h j.content) j.hashes ∙ ap hash same, ap (λ c. length c) same),
  )

  -- Each step keeps the digests of the cache current.
  pub Step-Fresh : (s t : Disk) → Fresh s → Step s t → Fresh t
  Step-Fresh s t fresh (write path now new h) = record {
    times = λ k time old e.
        write_time s path k now time old new (fresh.times k time old) (omega arith) e;
    items =
        λ is k i read found. write-IsCurrent s path k now new i h (fresh.items is k i read found);
  }
  Step-Fresh s t fresh (remove path) = record {
    times = λ k time old e. remove_time s path k time old (fresh.times k time old) e;
    items = λ is k i read found. remove-IsCurrent s path k i (fresh.items is k i read found);
  }
  Step-Fresh s t fresh (build j) = record {
    times = fresh.times;
    items =
        AllItems-compute_digest_and_size j.calls j.ranges (IsCurrent s) s.cache j.path j.info
          j.content fresh.items j.media_type (opened j.seekable j.content)
          (rest_of-opened j.seekable j.content) (job-IsCurrent s j fresh);
  }

  pub Reach-Fresh : (s : Disk) → Reach s → Fresh s
  unfolding read_items
  Reach-Fresh s start = record {
    times = λ k time old e. cc e;
    items = AllItems-empty (λ k i. IsCurrent s k i) no_file refl;
  }
  Reach-Fresh t (later {s} r st) = Step-Fresh s t (Reach-Fresh s r) st
