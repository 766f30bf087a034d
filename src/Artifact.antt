-- ===== src/Artifact.antt =====
-- The artifact's data as the model specification and the image specification name them: what
-- pkg/backend reads of descriptors, manifests and configs.
use modctl.Prelude.{ℕ, Bool, Option, none, some, List, [], ◌∷◌, Text}

-- The annotations of a layer are what stands under the path's key and under its legacy key, the
-- empty text if nothing does; `none` is a nil map. `metadata` stands under the key of the file's
-- metadata.
pub record Descriptor : Type 0 where
  pub media_type : Text
  pub digest : Text
  pub size : ℕ
  pub annotations : Option (Text × Text)
  pub metadata : Text

-- The annotations of a manifest, by their keys.
pub record Manifest : Type 0 where
  pub config : Descriptor
  pub layers : List Descriptor
  pub annotations : List (Text × Text)

-- `modelspec.Model`: its config, its descriptor and its file system. `reasoning` stands among the
-- capabilities.
pub record Model : Type 0 where
  pub architecture : Text
  pub format : Text
  pub precision : Text
  pub quantization : Text
  pub param_size : Text
  pub reasoning : Option Bool
  pub family : Text
  pub name : Text
  pub source_url : Text
  pub revision : Text
  pub created_at : Option ℕ
  pub diff_ids : List Text

-- The path of a layer: the value under the path's key, or that under the legacy one.
unfoldable pub filepath : Option (Text × Text) → Text
filepath none = []
filepath (some ([], legacy)) = legacy
filepath (some (c ∷ s, legacy)) = c ∷ s

unfoldable pub diff_ids_of : List Descriptor → List Text
diff_ids_of [] = []
diff_ids_of (l ∷ ls) = l.digest ∷ diff_ids_of ls
