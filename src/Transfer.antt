-- ===== src/Transfer.antt =====
-- Pulling an artifact: pkg/backend/pull.go. The registry, the local storage, the codec, JSON and
-- SHA-256 are the operations of a world, which each call changes; the layers are pulled in their
-- order, as with a concurrency of one. Logging and the progress bar are left out.
use modctl.Prelude.{
  is_empty, and_then, ℕ, zero, suc, Bool, true, false, not, ◌&&◌, Option, none, some, List, [], ◌∷◌,
  if◌then◌else◌, Text, text_eq,
}
use modctl.Retry.{worth_retrying, retry}
pub mod Pulled
pub mod Order
pub mod Complete
mod Samples

-- The annotations are the two texts for the path of a layer, as in `Artifact.Descriptor`.
pub record Descriptor : Type 0 where
  pub is_manifest : Bool
  pub digest : Text
  pub annotations : Option (Text × Text)

pub record Manifest : Type 0 where
  pub config : Descriptor
  pub layers : List Descriptor

-- `extractLayer`, whose `codec.ErrAlreadyUpToDate` is no failure.
pub data Extracted : Type 0 where
  extracted up_to_date extract_failed : Extracted

-- A call with its new world; `none` and `false` are its errors. `Content` is an open reader.
pub record World : Type 1 where
  pub State : Type 0
  pub Content : Type 0
  pub fetch : State → Descriptor → State × Option Content
  pub fetch_reference : State → Text → State × Option (Descriptor × Content)
  pub decode : Content → Option Manifest
  pub read_all : State → Content → State × Option Text
  pub stat_blob : State → Text → State × Option Bool
  pub stat_manifest : State → Text → State × Option Bool
  pub push_blob : State → Descriptor → Content → State × Bool
  pub push_manifest : State → Text → Text → State × Bool
  pub extract_layer : State → Descriptor → Content → State × Extracted
  pub export_model_artifact : State → Manifest → State × Bool
  pub before_pull_layer : Descriptor → Manifest → Bool
  pub hash : Content → Text
  -- The status of the registry's response in the error that the last call ended with.
  pub last_status : State → Option ℕ
  -- What is in the local storage.
  pub has_blob : State → Text → Bool
  pub has_manifest : State → Text → Bool

pub record PullConfig : Type 0 where
  pub extract_dir : Text
  pub extract_from_remote : Bool

-- `validateDigest`: the hash of a reader has the length of a SHA-256.
unfoldable pub validate_digest : Text → Text → Bool
validate_digest digest actual = not (is_empty digest) && text_eq digest actual

module _ (w : World) where
  -- The two branches of `pullIfNotExist`, each behind the call that it looks at.
  manifest_read : Text → Descriptor → w.Content → w.State × Option Text → w.State × Bool
  unfolding validate_digest
  manifest_read tag desc content (s, none) = (s, false)
  manifest_read tag desc content (s, some body) =
      let (s', pushed) = w.push_manifest s tag body in
      (s', pushed && validate_digest desc.digest (w.hash content))

  manifest_stat : Text → Descriptor → w.Content → w.State × Option Bool → w.State × Bool
  unfolding manifest_read
  manifest_stat tag desc content (s, none) = (s, false)
  manifest_stat tag desc content (s, some true) = (s, true)
  manifest_stat tag desc content (s, some false) =
      manifest_read tag desc content (w.read_all s content)

  blob_stat : Descriptor → w.Content → w.State × Option Bool → w.State × Bool
  unfolding validate_digest
  blob_stat desc content (s, none) = (s, false)
  blob_stat desc content (s, some true) = (s, true)
  blob_stat desc content (s, some false) =
      let (s', pushed) = w.push_blob s desc content in
      (s', pushed && validate_digest desc.digest (w.hash content))

  content_fetched : Text → Descriptor → w.State × Option w.Content → w.State × Bool
  unfolding manifest_stat blob_stat
  content_fetched tag desc (s, none) = (s, false)
  content_fetched tag desc (s, some content) =
      if desc.is_manifest
      then manifest_stat tag desc content (w.stat_manifest s desc.digest)
      else blob_stat desc content (w.stat_blob s desc.digest)

  pub pull_if_not_exist : Text → Descriptor → w.State → w.State × Bool
  unfolding content_fetched
  pull_if_not_exist tag desc s = content_fetched tag desc (w.fetch s desc)

  unfoldable pub layer_extracted : Descriptor → w.Content → w.State × Extracted → w.State × Bool
  unfolding validate_digest
  layer_extracted desc content (s, extract_failed) = (s, false)
  layer_extracted desc content (s, up_to_date) = (s, true)
  layer_extracted desc content (s, extracted) = (s, validate_digest desc.digest (w.hash content))

  unfoldable pub layer_fetched : Descriptor → w.State × Option w.Content → w.State × Bool
  unfolding layer_extracted
  layer_fetched desc (s, none) = (s, false)
  layer_fetched desc (s, some content) =
      layer_extracted desc content (w.extract_layer s desc content)

  unfoldable pub pull_and_extract_from_remote : Descriptor → w.State → w.State × Bool
  unfolding layer_fetched
  pull_and_extract_from_remote desc s = layer_fetched desc (w.fetch s desc)

  -- Whether a call's outcome is an error that is worth another attempt.
  unfoldable pub again : w.State → Bool → Bool
  again s done = not done && worth_retrying (w.last_status s)

  -- One goroutine: the hook may skip the layer.
  pub pull_layer : PullConfig → Text → Manifest → Descriptor → w.State → w.State × Bool
  unfolding pull_if_not_exist pull_and_extract_from_remote
  pull_layer cfg tag manifest layer s =
      if w.before_pull_layer layer manifest
      then (s, true)
      else if cfg.extract_from_remote
      then pull_and_extract_from_remote layer s
      else pull_if_not_exist tag layer s

  pub pull_layers : ℕ → PullConfig → Text → Manifest → List Descriptor → w.State → w.State × Bool
  unfolding pull_layer
  pull_layers attempts cfg tag manifest [] s = (s, true)
  pull_layers attempts cfg tag manifest (l ∷ ls) s =
      and_then (retry again attempts (pull_layer cfg tag manifest l) s)
        (pull_layers attempts cfg tag manifest ls)

  pub export_if_wanted : PullConfig → Manifest → w.State → w.State × Bool
  export_if_wanted cfg manifest s =
      if is_empty cfg.extract_dir then (s, true) else w.export_model_artifact s manifest

  -- What follows the layers, in the order of the code.
  pub pull_rest : ℕ → PullConfig → Text → Descriptor → Manifest → w.State → w.State × Bool
  unfolding pull_if_not_exist export_if_wanted
  pull_rest attempts cfg tag manifest_desc manifest s =
      if cfg.extract_from_remote
      then (s, true)
      else and_then (retry again attempts (pull_if_not_exist tag manifest.config) s) (λ s1.
        and_then (retry again attempts (pull_if_not_exist tag manifest_desc) s1)
          (export_if_wanted cfg manifest))

  pub manifest_decoded :
      ℕ → PullConfig → Text → Descriptor → w.State → Option Manifest → w.State × Bool
  unfolding pull_layers pull_rest
  manifest_decoded attempts cfg tag manifest_desc s none = (s, false)
  manifest_decoded attempts cfg tag manifest_desc s (some manifest) =
      and_then (pull_layers attempts cfg tag manifest manifest.layers s)
        (pull_rest attempts cfg tag manifest_desc manifest)

  pub manifest_fetched :
      ℕ → PullConfig → Text → w.State × Option (Descriptor × w.Content) → w.State × Bool
  unfolding manifest_decoded
  manifest_fetched attempts cfg tag (s, none) = (s, false)
  manifest_fetched attempts cfg tag (s, some (manifest_desc, content)) =
      manifest_decoded attempts cfg tag manifest_desc s (w.decode content)

  pub pull : ℕ → PullConfig → Text → w.State → w.State × Bool
  unfolding manifest_fetched
  pull attempts cfg tag s = manifest_fetched attempts cfg tag (w.fetch_reference s tag)
