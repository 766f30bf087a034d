-- ===== src/Push.antt =====
-- Pushing an artifact: pkg/backend/push.go. The local storage, the registry and JSON are the
-- operations of a world, which each call changes; the push of one layer is one step, and the order
-- in which the goroutines take it is a parameter. Logging and the progress bar are left out.
use modctl.Prelude.{
  ℕ, Bool, true, false, not, ◌&&◌, Option, none, some, List, [], ◌∷◌, if◌then◌else◌, Text, and_then,
}
use modctl.Transfer.{Descriptor, Manifest}
use modctl.Retry.{worth_retrying, retry}
pub mod Pushed
pub mod Outcome
pub mod StaleTag
mod Attempts
mod Samples

-- A call with its new world; `none` and `false` are its errors. `Content` is an open reader.
pub record World : Type 1 where
  pub State : Type 0
  pub Content : Type 0
  -- The local storage.
  pub pull_manifest : State → Text → State × Option Text
  pub pull_blob : State → Text → State × Option Content
  -- The registry.
  pub exists : State → Descriptor → State × Option Bool
  pub fetch_reference : State → Text → State × Bool
  pub tag : State → Descriptor → Text → State × Bool
  pub push_blob : State → Descriptor → Content → State × Bool
  pub push_manifest : State → Descriptor → Text → State × Bool
  pub decode : Text → Option Manifest
  -- Whether the media type in the JSON is that of an image manifest; it can be another or none.
  pub names_manifest : Text → Bool
  pub digest_of : Text → Text
  -- The status of the registry's response in the error that the last call ended with.
  pub last_status : State → Option ℕ

module _ (w : World) where
  -- Whether a call's outcome is an error that is worth another attempt.
  unfoldable pub again : w.State → Bool → Bool
  again s done = not done && worth_retrying (w.last_status s)

  -- The manifest is there: the tag is pushed only if nothing can be fetched by it.
  unfoldable pub tag_fetched : Text → Descriptor → w.State × Bool → w.State × Bool
  tag_fetched tag desc (s, true) = (s, true)
  tag_fetched tag desc (s, false) = w.tag s desc tag

  unfoldable pub content_pulled : Descriptor → w.State × Option w.Content → w.State × Bool
  content_pulled desc (s, none) = (s, false)
  content_pulled desc (s, some content) = w.push_blob s desc content

  -- What follows the test whether the content is there. `raw` is the manifest.
  unfoldable pub existence_known : Text → Text → Descriptor → w.State × Option Bool → w.State × Bool
  unfolding tag_fetched content_pulled
  existence_known tag raw desc (s, none) = (s, false)
  existence_known tag raw desc (s, some true) =
      if desc.is_manifest then tag_fetched tag desc (w.fetch_reference s tag) else (s, true)
  existence_known tag raw desc (s, some false) =
      if desc.is_manifest
      then and_then (w.push_manifest s desc raw) (λ t. w.tag t desc tag)
      else content_pulled desc (w.pull_blob s desc.digest)

  unfoldable pub push_if_not_exist : Text → Text → Descriptor → w.State → w.State × Bool
  unfolding existence_known
  push_if_not_exist tag raw desc s = existence_known tag raw desc (w.exists s desc)

  unfoldable pub push_layers : ℕ → Text → Text → List Descriptor → w.State → w.State × Bool
  unfolding push_if_not_exist
  push_layers attempts tag raw [] s = (s, true)
  push_layers attempts tag raw (l ∷ ls) s =
      and_then (retry again attempts (push_if_not_exist tag raw l) s)
        (push_layers attempts tag raw ls)

  -- Its media type is the one that its JSON names.
  unfoldable pub manifest_desc : Text → Descriptor
  manifest_desc raw = record {
    is_manifest = w.names_manifest raw;
    digest = w.digest_of raw;
    annotations = none;
  }

  -- The layers, then the config, then the manifest.
  unfoldable pub push_all :
      ℕ → (List Descriptor → List Descriptor) → Text → Text → Manifest → w.State → w.State × Bool
  unfolding push_layers manifest_desc
  push_all attempts schedule tag raw manifest s =
      and_then (push_layers attempts tag raw (schedule manifest.layers) s) (λ s1.
        and_then (retry again attempts (push_if_not_exist tag raw manifest.config) s1)
          (retry again attempts (push_if_not_exist tag raw (manifest_desc raw))))

  unfoldable pub manifest_decoded :
      ℕ
      → (List Descriptor → List Descriptor)
      → Text
      → Text
      → Option Manifest
      → w.State
      → w.State × Bool
  unfolding push_all
  manifest_decoded attempts schedule tag raw none s = (s, false)
  manifest_decoded attempts schedule tag raw (some manifest) s =
      push_all attempts schedule tag raw manifest s

  unfoldable pub manifest_pulled :
      ℕ → (List Descriptor → List Descriptor) → Text → w.State × Option Text → w.State × Bool
  unfolding manifest_decoded
  manifest_pulled attempts schedule tag (s, none) = (s, false)
  manifest_pulled attempts schedule tag (s, some raw) =
      manifest_decoded attempts schedule tag raw (w.decode raw) s

  -- `Push` of a tag in the repository of the target.
  unfoldable pub push : ℕ → (List Descriptor → List Descriptor) → Text → w.State → w.State × Bool
  unfolding manifest_pulled
  push attempts schedule tag s = manifest_pulled attempts schedule tag (w.pull_manifest s tag)
