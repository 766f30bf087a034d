-- ===== src/Build/Output.antt =====
-- Where a build puts its blobs: the interface of pkg/backend/build/builder.go and its two
-- implementations, pkg/backend/build/local.go and pkg/backend/build/remote.go.
use modctl.Prelude.{
  ℕ, Bool, true, false, Option, none, some, [], if◌then◌else◌, Text, is_empty, length,
}
use modctl.Artifact.{Descriptor}
use modctl.Build.{Bytes}
pub mod Faithful
pub mod Untagged
mod Samples

-- `OutputStrategy`. A call has its new state; `none` is its error.
pub record Output : Type 1 where
  pub State : Type 0
  -- Of the media type, the relative and the destination path, the digest, the size and the content.
  pub output_layer : State → Text → Text → Text → Text → ℕ → Bytes → State × Option Descriptor
  pub output_config : State → Text → Text → ℕ → Bytes → State × Option Descriptor
  pub output_manifest : State → Text → Text → ℕ → Bytes → State × Option Descriptor

-- The storage of a repository, as pkg/storage names it.
pub record Storage : Type 1 where
  pub State : Type 0
  pub push_blob : State → Bytes → State × Option (Text × ℕ)
  pub push_manifest : State → Text → Bytes → State × Option Text

-- The remote repository of the library oras-go.
pub record Remote : Type 1 where
  pub State : Type 0
  pub blob_exists : State → Descriptor → State × Option Bool
  pub push_blob : State → Descriptor → Bytes → State × Bool
  pub manifest_exists : State → Descriptor → State × Option Bool
  pub push_manifest : State → Descriptor → Bytes → State × Bool
  pub tag : State → Descriptor → Text → State × Bool

unfoldable pub dest_or : Text → Text → Text
dest_or dest_path rel_path = if is_empty dest_path then rel_path else dest_path

unfoldable pub layer_desc : Text → Text → Text → Text → ℕ → Descriptor
unfolding dest_or
layer_desc media_type rel_path dest_path digest size = record {
  media_type = media_type;
  digest = digest;
  size = size;
  annotations = some (dest_or dest_path rel_path, []);
  metadata = [];
}

-- Without annotations.
unfoldable pub blob_desc : Text → Text → ℕ → Descriptor
blob_desc media_type digest size = record {
  media_type = media_type;
  digest = digest;
  size = size;
  annotations = none;
  metadata = [];
}

module _ (st : Storage) (tag : Text) where
  local_layer : Text → Text → Text → st.State × Option (Text × ℕ) → st.State × Option Descriptor
  unfolding layer_desc
  local_layer media_type rel_path dest_path (s, none) = (s, none)
  local_layer media_type rel_path dest_path (s, some (digest, size)) =
      (s, some (layer_desc media_type rel_path dest_path digest size))

  local_config : Text → st.State × Option (Text × ℕ) → st.State × Option Descriptor
  unfolding blob_desc
  local_config media_type (s, none) = (s, none)
  local_config media_type (s, some (digest, size)) = (s, some (blob_desc media_type digest size))

  local_manifest : Text → ℕ → st.State × Option Text → st.State × Option Descriptor
  unfolding blob_desc
  local_manifest media_type size (s, none) = (s, none)
  local_manifest media_type size (s, some digest) = (s, some (blob_desc media_type digest size))

  -- The methods of `localOutput`. The storage computes the digest again.
  unfoldable pub local_output_layer :
      st.State → Text → Text → Text → Text → ℕ → Bytes → st.State × Option Descriptor
  unfolding local_layer
  local_output_layer s media_type rel_path dest_path digest size content =
      local_layer media_type rel_path dest_path (st.push_blob s content)

  unfoldable pub local_output_config :
      st.State → Text → Text → ℕ → Bytes → st.State × Option Descriptor
  unfolding local_config
  local_output_config s media_type digest size content =
      local_config media_type (st.push_blob s content)

  unfoldable pub local_output_manifest :
      st.State → Text → Text → ℕ → Bytes → st.State × Option Descriptor
  unfolding local_manifest
  local_output_manifest s media_type digest size content =
      local_manifest media_type (length content) (st.push_manifest s tag content)

  abbrev pub local_output : Output
  local_output = record {
    State = st.State;
    output_layer = local_output_layer;
    output_config = local_output_config;
    output_manifest = local_output_manifest;
  }

module _ (re : Remote) (tag : Text) where
  pushed : Descriptor → re.State × Bool → re.State × Option Descriptor
  pushed desc (s, false) = (s, none)
  pushed desc (s, true) = (s, some desc)

  -- What follows the test whether a blob is there.
  blob_known : Descriptor → Bytes → re.State × Option Bool → re.State × Option Descriptor
  unfolding pushed
  blob_known desc content (s, none) = (s, none)
  blob_known desc content (s, some true) = (s, some desc)
  blob_known desc content (s, some false) = pushed desc (re.push_blob s desc content)

  manifest_pushed : Descriptor → re.State × Bool → re.State × Option Descriptor
  unfolding pushed
  manifest_pushed desc (s, false) = (s, none)
  manifest_pushed desc (s, true) = pushed desc (re.tag s desc tag)

  manifest_known : Descriptor → Bytes → re.State × Option Bool → re.State × Option Descriptor
  unfolding manifest_pushed
  manifest_known desc content (s, none) = (s, none)
  manifest_known desc content (s, some true) = (s, some desc)
  manifest_known desc content (s, some false) =
      manifest_pushed desc (re.push_manifest s desc content)

  -- The methods of `remoteOutput`.
  unfoldable pub remote_output_layer :
      re.State → Text → Text → Text → Text → ℕ → Bytes → re.State × Option Descriptor
  unfolding layer_desc blob_known
  remote_output_layer s media_type rel_path dest_path digest size content =
      let desc = layer_desc media_type rel_path dest_path digest size in
      blob_known desc content (re.blob_exists s desc)

  unfoldable pub remote_output_config :
      re.State → Text → Text → ℕ → Bytes → re.State × Option Descriptor
  unfolding blob_desc blob_known
  remote_output_config s media_type digest size content =
      let desc = blob_desc media_type digest size in blob_known desc content (re.blob_exists s desc)

  unfoldable pub remote_output_manifest :
      re.State → Text → Text → ℕ → Bytes → re.State × Option Descriptor
  unfolding blob_desc manifest_known
  remote_output_manifest s media_type digest size content =
      let desc = blob_desc media_type digest size in
      manifest_known desc content (re.manifest_exists s desc)

  abbrev pub remote_output : Output
  remote_output = record {
    State = re.State;
    output_layer = remote_output_layer;
    output_config = remote_output_config;
    output_manifest = remote_output_manifest;
  }
