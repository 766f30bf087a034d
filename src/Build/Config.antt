-- ===== src/Build/Config.antt =====
-- pkg/backend/build/builder.go: the config of the model.
use modctl.Prelude.{ℕ, Bool, true, Option, none, some, List, if◌then◌else◌, Text}
use modctl.Artifact.{Descriptor, Model, diff_ids_of}

-- `buildconfig.Model`.
pub record ModelConfig : Type 0 where
  pub architecture : Text
  pub format : Text
  pub precision : Text
  pub quantization : Text
  pub param_size : Text
  pub family : Text
  pub name : Text
  pub source_url : Text
  pub source_revision : Text
  pub reasoning : Bool
  pub no_creation_time : Bool

-- `BuildModelConfig` at a time; no config is a nil pointer, its one error.
unfoldable pub build_model_config : ℕ → Option ModelConfig → List Descriptor → Option Model
unfolding diff_ids_of
build_model_config now none layers = none
build_model_config now (some config) layers = some (record {
  architecture = config.architecture;
  format = config.format;
  precision = config.precision;
  quantization = config.quantization;
  param_size = config.param_size;
  reasoning = if config.reasoning then some true else none;
  family = config.family;
  name = config.name;
  source_url = config.source_url;
  revision = config.source_revision;
  created_at = if config.no_creation_time then none else some now;
  diff_ids = diff_ids_of layers;
})
