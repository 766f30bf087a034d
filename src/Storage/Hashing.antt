-- ===== src/Storage/Hashing.antt =====
-- The storage tells a build the hash and the size of what it stores.
use modctl.Prelude.{
  ℕ, ◌≡◌, refl, ◌∙◌, inl, inr, Bool, true, false, Option, none, some, [], Text, length, Bool-cases,
}
use modctl.Artifact.{Descriptor}
use modctl.Build.{Bytes}
use modctl.Build.Output.{Remote, local_output_layer, remote_output_layer}
use modctl.Build.Output.Faithful.{IsHashing, output_layer_agree}
use modctl.Storage.{
  Library, Provisional, repository, provisional_or, blob_committed, blob_created, push_blob,
  storage_of,
}

module _ (lib : Library) where
  -- A blob is committed as what it is declared to be, and read as long as it is.
  pub record CommitLaws : Type 0 where
    pub commits :
        (s : lib.State) (repo digest : Text) (size : ℕ) (digest' : Text) (size' : ℕ)
        → (lib.blob_commit s repo digest size).1 ≡ some (digest', size')
        → (digest' ≡ digest) × (size' ≡ size)
    pub reads :
        (s : lib.State) (repo : Text) (content : Bytes) (size : ℕ)
        → (lib.blob_read_from s repo content).1 ≡ some size
        → size ≡ length content

  module _ (laws : CommitLaws) (repo : Text) (content : Bytes) (digest : Text) (size : ℕ) where
    abbrev unknown : Provisional
    unknown = record { digest = []; size = 0 }

    committed-hash :
        (q : lib.State × Option ℕ)
        → ((n : ℕ) → q.1 ≡ some n → n ≡ length content)
        → (blob_committed lib repo unknown content q).1 ≡ some (digest, size)
        → (digest ≡ lib.hash content) × (size ≡ length content)
    unfolding blob_committed provisional_or
    committed-hash (s, none) read h = cc h
    committed-hash (s, some n) read h =
        let (d, m) = laws.commits s repo (lib.hash content) n digest size h in (d, m ∙ read n refl)

    created-hash :
        (q : lib.State × Bool)
        → (blob_created lib repo unknown content q).1 ≡ some (digest, size)
        → (digest ≡ lib.hash content) × (size ≡ length content)
    unfolding blob_created
    created-hash (s, false) h = cc h
    created-hash (s, true) h =
        committed-hash (lib.blob_read_from s repo content) (laws.reads s repo content) h

    push_blob-hash :
        (s : lib.State)
        → (push_blob lib s repo content unknown).1 ≡ some (digest, size)
        → (digest ≡ lib.hash content) × (size ≡ length content)
    unfolding push_blob
    push_blob-hash s h = elim (Bool-cases (repository lib repo)) [
      | inl r ↦ created-hash (lib.blob_create s repo) (simp r at h)
      | inr r ↦ cc (simp r at h)
    ]

  storage_of-IsHashing : (repo : Text) → CommitLaws → IsHashing lib.hash (storage_of lib repo)
  storage_of-IsHashing repo laws s content digest size h =
      push_blob-hash laws repo content digest size s h

-- If a build's layer is stored by the local output, over the storage, and by the remote output, which
-- is given the hash and the size of the content, then both yield the same descriptor.
pub stored_layer_agree :
    (lib : Library) (repo : Text) (re : Remote) (tag : Text) (s : lib.State) (r : re.State)
    (media_type rel_path dest_path : Text) (content : Bytes) (d e : Descriptor)
    → CommitLaws lib
    → (local_output_layer
        (storage_of lib repo)
        tag
        s
        media_type
        rel_path
        dest_path
        (lib.hash content)
        (length content)
        content).1
      ≡ some d
    → (remote_output_layer re tag r media_type rel_path dest_path
        (lib.hash content)
        (length content)
        content).1
      ≡ some e
    → d ≡ e
stored_layer_agree lib repo re tag s r media_type rel_path dest_path content d e laws on_local
      on_remote =
    output_layer_agree lib.hash (storage_of lib repo) re tag (storage_of-IsHashing lib repo laws) s
      r media_type rel_path dest_path content d e on_local on_remote
