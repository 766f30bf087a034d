-- ===== src/Local.antt =====
-- The operations of pkg/backend on the local storage alone: tag.go, rm.go and list.go. JSON is a
-- parameter, and a reference is what `ParseReference` reads in it.
use modctl.Prelude.{
  ℕ, ◌+◌, Bool, true, false, not, ◌&&◌, ◌||◌, Option, none, some, List, [], ◌∷◌, ◌++◌,
  if◌then◌else◌, Text, is_empty, length, and_then, then_with, ltb,
}
use modctl.Modelfile.Workspace.{add64}
use modctl.Artifact.{Descriptor, Manifest, Model}
use modctl.Build.{Bytes}
use modctl.Storage.{
  Library, pull_manifest, push_manifest, mount_blob, delete_manifest, pull_blob, list_repositories,
  list_tags,
}
pub mod Tagging
mod Samples

pub record Reference : Type 0 where
  pub repository : Text
  pub tag : Text
  pub digest : Text

-- `ModelArtifact`; a time of 0 is the zero time.
pub record ModelArtifact : Type 0 where
  pub repository : Text
  pub tag : Text
  pub digest : Text
  pub size : ℕ
  pub created_at : ℕ

module _ (lib : Library) where
  -- Each blob in its order, up to the first that cannot be mounted.
  unfoldable pub mount_all : Text → Text → List Descriptor → lib.State → lib.State × Bool
  mount_all from_repo to_repo [] s = (s, true)
  mount_all from_repo to_repo (l ∷ ls) s =
      and_then (mount_blob lib s from_repo to_repo l.digest) (mount_all from_repo to_repo ls)

  unfoldable pub is_pushed : lib.State × Option Text → lib.State × Bool
  is_pushed (s, none) = (s, false)
  is_pushed (s, some digest) = (s, true)

module _ (lib : Library) (unmarshal : Bytes → Option Manifest) where
  unfoldable pub manifest_tagged :
      Reference → Reference → Bytes → Option Manifest → lib.State → lib.State × Bool
  unfolding mount_all is_pushed
  manifest_tagged source target raw none s = (s, false)
  manifest_tagged source target raw (some m) s =
      and_then (mount_all lib source.repository target.repository (m.config ∷ m.layers) s)
        (λ t. is_pushed lib (push_manifest lib t target.repository target.tag raw))

  unfoldable pub source_pulled :
      Reference → Reference → Option (Bytes × Text) → lib.State → lib.State × Bool
  unfolding manifest_tagged
  source_pulled source target none s = (s, false)
  source_pulled source target (some (raw, digest)) s =
      manifest_tagged source target raw (unmarshal raw) s

  -- `Tag`.
  unfoldable pub tag : Option Reference → Option Reference → lib.State → lib.State × Bool
  unfolding source_pulled
  tag none target s = (s, false)
  tag (some source) none s = (s, false)
  tag (some source) (some target) s =
      source_pulled source target (pull_manifest lib s source.repository source.tag) s

  unfoldable pub removed : Text → lib.State × Bool → lib.State × Option Text
  removed reference (s, true) = (s, some reference)
  removed reference (s, false) = (s, none)

  -- The digest of a reference before its tag.
  unfoldable pub removed_reference : Reference → Text
  removed_reference r = if is_empty r.digest then r.tag else r.digest

  -- `Remove`, with the reference that it has removed.
  unfoldable pub remove : Option Reference → lib.State → lib.State × Option Text
  unfolding removed removed_reference
  remove none s = (s, none)
  remove (some r) s =
      if is_empty (removed_reference r)
      then (s, none)
      else removed (removed_reference r) (delete_manifest lib s r.repository (removed_reference r))

-- Reading only, so that the state is left.
module _ (lib : Library) (unmarshal : Bytes → Option Manifest) (decode : Bytes → Option Model)
    (s : lib.State) where
  -- The sizes are int64 and stand for their 64 bits.
  unfoldable pub add_sizes : ℕ → List Descriptor → ℕ
  unfolding add64
  add_sizes size [] = size
  add_sizes size (l ∷ ls) = add_sizes (add64 size l.size) ls

  unfoldable pub time_or_zero : Option ℕ → ℕ
  time_or_zero none = 0
  time_or_zero (some t) = t

  unfoldable pub config_read :
      Text → Text → Bytes → Text → Manifest → Option Model → Option ModelArtifact
  unfolding add_sizes add64 time_or_zero
  config_read repo tag raw digest m none = none
  config_read repo tag raw digest m (some model) = some (record {
    repository = repo;
    tag = tag;
    digest = digest;
    size = add_sizes (add64 (length raw) m.config.size) m.layers;
    created_at = time_or_zero model.created_at;
  })

  unfoldable pub blob_decoded : Option Bytes → Option Model
  blob_decoded none = none
  blob_decoded (some content) = decode content

  unfoldable pub manifest_read : Text → Text → Bytes → Text → Option Manifest → Option ModelArtifact
  unfolding config_read blob_decoded
  manifest_read repo tag raw digest none = none
  manifest_read repo tag raw digest (some m) =
      config_read repo tag raw digest m (blob_decoded (pull_blob lib s repo m.config.digest))

  unfoldable pub manifest_found : Text → Text → Option (Bytes × Text) → Option ModelArtifact
  unfolding manifest_read
  manifest_found repo tag none = none
  manifest_found repo tag (some (raw, digest)) = manifest_read repo tag raw digest (unmarshal raw)

  unfoldable pub assemble_model_artifact : Text → Text → Option ModelArtifact
  unfolding manifest_found
  assemble_model_artifact repo tag = manifest_found repo tag (pull_manifest lib s repo tag)

  unfoldable pub with_artifact :
      Option ModelArtifact → Option (List ModelArtifact) → Option (List ModelArtifact)
  with_artifact none rest = none
  with_artifact (some a) none = none
  with_artifact (some a) (some rest) = some (a ∷ rest)

  unfoldable pub list_tagged : Text → List Text → Option (List ModelArtifact)
  unfolding with_artifact assemble_model_artifact
  list_tagged repo [] = some []
  list_tagged repo (t ∷ ts) = with_artifact (assemble_model_artifact repo t) (list_tagged repo ts)

  unfoldable pub tags_known : Text → Option (List Text) → Option (List ModelArtifact)
  unfolding list_tagged
  tags_known repo none = none
  tags_known repo (some ts) = list_tagged repo ts

  unfoldable pub with_artifacts :
      Option (List ModelArtifact) → Option (List ModelArtifact) → Option (List ModelArtifact)
  with_artifacts none rest = none
  with_artifacts (some found) none = none
  with_artifacts (some found) (some rest) = some (found ++ rest)

  unfoldable pub list_in : List Text → Option (List ModelArtifact)
  unfolding with_artifacts tags_known list_tags
  list_in [] = some []
  list_in (r ∷ rs) = with_artifacts (tags_known r (list_tags lib s r)) (list_in rs)

  unfoldable pub listed :
      (List ModelArtifact → List ModelArtifact) → Option (List Text) → Option (List ModelArtifact)
  unfolding list_in
  listed sort none = none
  listed sort (some repos) = elim (list_in repos) [ none ↦ none | some found ↦ some (sort found) ]

  -- `List`; `sort` is `sort.Slice`, with the newest first.
  unfoldable pub list : (List ModelArtifact → List ModelArtifact) → Option (List ModelArtifact)
  unfolding listed list_repositories
  list sort = listed sort (list_repositories lib s)
