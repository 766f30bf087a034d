-- ===== src/Storage.antt =====
-- pkg/storage/distribution/distribution.go: the local storage, over the registry library of
-- github.com/distribution, which is a parameter.
use modctl.Prelude.{
  [], ℕ, Bool, true, false, Option, none, some, List, if◌then◌else◌, Text, text_eq, is_empty,
  length, and_then, then_with,
}
use modctl.Build.{Bytes}
use modctl.Build.Output.{Storage}
pub mod RoundTrip
pub mod Hashing
pub mod Samples

-- How `Blobs().Create` with `WithMountFrom` ends: with a writer, or with one of two errors.
pub data MountResult : Type 0 where
  writer : MountResult
  mounted : Text → Text → MountResult
  mount_failed : MountResult

pub data BlobStat : Type 0 where
  known blob_unknown stat_failed : BlobStat

-- The calls of the library; `none` and `false` are their errors. A call that only reads leaves the
-- state.
pub record Library : Type 1 where
  pub State : Type 0
  pub parse_named : Text → Bool
  pub open_repository : Text → Bool
  pub open_manifests : Text → Bool
  pub tag_get : State → Text → Text → Option Text
  pub tag_set : State → Text → Text → Text → State × Bool
  pub tag_remove : State → Text → Text → State × Bool
  pub tags_all : State → Text → Option (List Text)
  pub manifest_get : State → Text → Text → Option Bytes
  pub manifest_put : State → Text → Bytes → State × Option Text
  pub manifest_delete : State → Text → Text → State × Bool
  pub manifest_exists : State → Text → Text → Option Bool
  pub blob_open : State → Text → Text → Option Bytes
  pub blob_create : State → Text → State × Bool
  pub blob_read_from : State → Text → Bytes → State × Option ℕ
  pub blob_commit : State → Text → Text → ℕ → State × Option (Text × ℕ)
  pub blob_mount : State → Text → Text → Text → State × MountResult
  pub blob_stat : State → Text → Text → BlobStat
  pub enumerate : State → Option (List Text)
  -- The digest of a manifest's descriptor, if it can be read.
  pub unmarshal_manifest : Bytes → Option Text
  pub is_digest : Text → Bool
  pub hash : Bytes → Text

-- What `PushBlob` is told of a blob, the empty text if nothing.
pub record Provisional : Type 0 where
  pub digest : Text
  pub size : ℕ

module _ (lib : Library) where
  -- `repository`: whether the repository is there to be used.
  unfoldable pub repository : Text → Bool
  repository repo = if lib.parse_named repo then lib.open_repository repo else false

  unfoldable pub payload_read : Text → Option Bytes → Option (Bytes × Text)
  payload_read digest none = none
  payload_read digest (some payload) = some (payload, digest)

  unfoldable pub tag_found : lib.State → Text → Option Text → Option (Bytes × Text)
  unfolding payload_read
  tag_found s repo none = none
  tag_found s repo (some digest) = payload_read digest (lib.manifest_get s repo digest)

  -- The manifest of a tag, with its digest.
  unfoldable pub pull_manifest : lib.State → Text → Text → Option (Bytes × Text)
  unfolding repository tag_found
  pull_manifest s repo reference =
      if repository repo
      then (if lib.open_manifests repo
          then tag_found s repo (lib.tag_get s repo reference)
          else none)
      else none

  unfoldable pub digest_if : Text → lib.State × Bool → lib.State × Option Text
  digest_if digest (s, true) = (s, some digest)
  digest_if digest (s, false) = (s, none)

  unfoldable pub manifest_unmarshalled :
      lib.State → Text → Text → Bytes → Option Text → lib.State × Option Text
  unfolding digest_if
  manifest_unmarshalled s repo reference content none = (s, none)
  manifest_unmarshalled s repo reference content (some described) =
      then_with (lib.manifest_put s repo content)
        (λ digest t. digest_if digest (lib.tag_set t repo reference described))

  -- The manifest is put, and then tagged.
  unfoldable pub push_manifest : lib.State → Text → Text → Bytes → lib.State × Option Text
  unfolding repository manifest_unmarshalled
  push_manifest s repo reference content =
      if repository repo
      then (if lib.open_manifests repo
          then manifest_unmarshalled s repo reference content (lib.unmarshal_manifest content)
          else (s, none))
      else (s, none)

  -- By its digest the manifest is deleted; by a tag only the tag is removed.
  unfoldable pub delete_manifest : lib.State → Text → Text → lib.State × Bool
  unfolding repository
  delete_manifest s repo reference =
      if repository repo
      then (if lib.is_digest reference
          then (if lib.open_manifests repo
              then lib.manifest_delete s repo reference
              else (s, false))
          else lib.tag_remove s repo reference)
      else (s, false)

  unfoldable pub pull_blob : lib.State → Text → Text → Option Bytes
  unfolding repository
  pull_blob s repo digest = if repository repo then lib.blob_open s repo digest else none

  -- The digest and the size to commit: those that are given, or those of the content.
  unfoldable pub provisional_or : Provisional → Bytes → ℕ → Text × ℕ
  provisional_or p content size =
      if is_empty p.digest then (lib.hash content, size) else (p.digest, p.size)

  unfoldable pub blob_committed :
      Text → Provisional → Bytes → lib.State × Option ℕ → lib.State × Option (Text × ℕ)
  unfolding provisional_or
  blob_committed repo p content (s, none) = (s, none)
  blob_committed repo p content (s, some size) =
      let (digest, n) = provisional_or p content size in lib.blob_commit s repo digest n

  unfoldable pub blob_created :
      Text → Provisional → Bytes → lib.State × Bool → lib.State × Option (Text × ℕ)
  unfolding blob_committed
  blob_created repo p content (s, false) = (s, none)
  blob_created repo p content (s, true) =
      blob_committed repo p content (lib.blob_read_from s repo content)

  unfoldable pub push_blob : lib.State → Text → Bytes → Provisional → lib.State × Option (Text × ℕ)
  unfolding repository blob_created
  push_blob s repo content p =
      if repository repo then blob_created repo p content (lib.blob_create s repo) else (s, none)

  -- The library tells of a mounted blob by an error.
  unfoldable pub mount_checked : Text → Text → lib.State × MountResult → lib.State × Bool
  mount_checked from_repo digest (s, writer) = (s, false)
  mount_checked from_repo digest (s, mount_failed) = (s, false)
  mount_checked from_repo digest (s, mounted name d) =
      if text_eq d digest then (s, text_eq name from_repo) else (s, false)

  unfoldable pub mount_blob : lib.State → Text → Text → Text → lib.State × Bool
  unfolding repository mount_checked
  mount_blob s from_repo to_repo digest =
      if repository to_repo
      then (if lib.parse_named from_repo
          then (if lib.is_digest digest
              then mount_checked from_repo digest (lib.blob_mount s from_repo to_repo digest)
              else (s, false))
          else (s, false))
      else (s, false)

  unfoldable pub blob_known : BlobStat → Option Bool
  blob_known known = some true
  blob_known blob_unknown = some false
  blob_known stat_failed = none

  unfoldable pub stat_blob : lib.State → Text → Text → Option Bool
  unfolding repository blob_known
  stat_blob s repo digest =
      if repository repo then blob_known (lib.blob_stat s repo digest) else none

  unfoldable pub stat_manifest : lib.State → Text → Text → Option Bool
  unfolding repository
  stat_manifest s repo digest =
      if repository repo
      then (if lib.open_manifests repo then lib.manifest_exists s repo digest else none)
      else none

  unfoldable pub list_repositories : lib.State → Option (List Text)
  list_repositories s = lib.enumerate s

  unfoldable pub list_tags : lib.State → Text → Option (List Text)
  unfolding repository
  list_tags s repo = if repository repo then lib.tags_all s repo else none

  -- The storage as a build uses it.
  abbrev pub storage_of : Text → Storage
  storage_of repo = record {
    State = lib.State;
    push_blob = λ s content. push_blob s repo content (record { digest = []; size = 0 });
    push_manifest = λ s tag content. push_manifest s repo tag content;
  }
