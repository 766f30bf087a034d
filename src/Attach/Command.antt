-- ===== src/Attach/Command.antt =====
-- The whole of `Attach` of pkg/backend/attach.go, over the builder of the target. What the source's
-- storage or registry yields, and what JSON makes of a config file, are arguments.
use modctl.Prelude.{
  ℕ, Bool, true, false, not, ◌&&◌, ◌||◌, Option, none, some, List, [], ◌∷◌, ◌++◌, if◌then◌else◌,
  Text, text_eq, is_empty, Result, ok, err, then_with,
}
use modctl.Artifact.{Descriptor, Manifest, Model, diff_ids_of}
use modctl.Modelfile.FileType.{FileType, config, model, code, doc, Humanize, infer_file_type}
use modctl.Build.Builder.{Builder}
use modctl.Build.Config.{ModelConfig, build_model_config}
use modctl.Build.Process.{Paths, Processor, ProcessError, process}
use modctl.Build.Command.{Run, MediaType, media_type_of}
use modctl.Build.Command
use modctl.Attach.{AttachError, MediaTypes, find_layer, attach_layers}
pub mod Unchanged
pub mod Order
mod Samples

-- The fields of `config.Attach` that are read here.
pub record AttachOptions : Type 0 where
  pub output_remote : Bool
  pub force : Bool
  pub raw : Bool
  pub config : Bool
  pub destination_dir : Text

-- A source or a target, as `ParseReference` reads it.
abbrev pub Reference : Type 0
Reference = Option (Text × Text)

-- What is under the source, in the local storage and in the registry.
pub record Origin (A : Type 0) : Type 0 where
  pub on_local : Option A
  pub on_remote : Option A

unfoldable pub fetched_from : {A : Type 0} → Bool → Origin A → Option A
fetched_from from_remote o = if from_remote then o.on_remote else o.on_local

unfoldable pub get_manifest : Bool → Reference → Origin Manifest → Option Manifest
unfolding fetched_from
get_manifest from_remote none o = none
get_manifest from_remote (some (repo, tag)) o =
    if is_empty repo || is_empty tag then none else fetched_from from_remote o

unfoldable pub get_model_config : Bool → Reference → Origin Model → Option Model
unfolding fetched_from
get_model_config from_remote none o = none
get_model_config from_remote (some (repo, tag)) o =
    if is_empty repo then none else fetched_from from_remote o

-- The media type for a file's type.
unfoldable pub type_for : Command.MediaTypes → FileType → MediaType
type_for types config = types.weight_config
type_for types model = types.weight
type_for types code = types.code
type_for types doc = types.doc

-- Of the size that `os.Stat` tells, if it does.
unfoldable pub get_processor :
    Humanize → Command.MediaTypes → Text → Text → Bool → Option ℕ → Option Processor
unfolding type_for media_type_of infer_file_type
get_processor u types dest_dir path raw none = none
get_processor u types dest_dir path raw (some size) = some (record {
  media_type = media_type_of raw (type_for types (infer_file_type u path size));
  patterns = path ∷ [];
  dest_dir = dest_dir;
})

-- The tests of `getBuilder`.
unfoldable pub is_target : Reference → Bool
is_target none = false
is_target (some (repo, tag)) = not (is_empty repo || is_empty tag)

unfoldable pub attach_path : Paths → AttachOptions → Text → Text
attach_path ps cfg path =
    if is_empty cfg.destination_dir then path else ps.join cfg.destination_dir (ps.base path)

-- The media types of `mediaTypePriorityMap`.
unfoldable pub priority_types : Command.MediaTypes → MediaTypes
priority_types types = record {
  weight_config = types.weight_config.packed;
  weight = types.weight.packed;
  code = types.code.packed;
  doc = types.doc.packed;
}

unfoldable pub refused : Bool → Option Descriptor → Bool
refused force none = false
refused force (some found) = not force

-- The artifact is what the source is, or it has a new manifest.
pub data Attached : Type 0 where
  unchanged : Attached
  attached : Descriptor → Attached

unfoldable pub same_ids : List Text → List Text → Bool
same_ids [] [] = true
same_ids [] (y ∷ ys) = false
same_ids (x ∷ xs) [] = false
same_ids (x ∷ xs) (y ∷ ys) = text_eq x y && same_ids xs ys

unfoldable pub is_reasoning : Option Bool → Bool
is_reasoning none = false
is_reasoning (some b) = b

-- The config of the new artifact, from that of the source.
unfoldable pub config_from : Model → ModelConfig
unfolding is_reasoning
config_from m = record {
  architecture = m.architecture;
  format = m.format;
  precision = m.precision;
  quantization = m.quantization;
  param_size = m.param_size;
  family = m.family;
  name = m.name;
  source_url = m.source_url;
  source_revision = m.revision;
  reasoning = is_reasoning m.reasoning;
  no_creation_time = false;
}

module _ (b : Builder) (r : Run b) where
  unfoldable pub manifest_stored : b.State × Option Descriptor → b.State × Option Attached
  manifest_stored (s, none) = (s, none)
  manifest_stored (s, some desc) = (s, some (attached desc))

  -- The config and the manifest, each built once.
  unfoldable pub artifact_stored :
      List Descriptor → List (Text × Text) → Option Model → b.State → b.State × Option Attached
  unfolding manifest_stored
  artifact_stored layers annotations none s = (s, none)
  artifact_stored layers annotations (some m) s =
      then_with (b.build_config s m)
        (λ config t. manifest_stored (b.build_manifest t layers config annotations))

  unfoldable pub layers_attached :
      ℕ → Manifest → Model → List Descriptor → b.State → b.State × Option Attached
  unfolding artifact_stored same_ids diff_ids_of config_from build_model_config
  layers_attached now source m layers s =
      if same_ids (diff_ids_of layers) m.diff_ids
      then (s, some unchanged)
      else artifact_stored layers source.annotations
          (build_model_config now (some (config_from m)) layers) s

  unfoldable pub layers_known :
      ℕ
      → Manifest
      → Model
      → Result AttachError (List Descriptor)
      → b.State
      → b.State × Option Attached
  unfolding layers_attached
  layers_known now source m (err e) s = (s, none)
  layers_known now source m (ok layers) s = layers_attached now source m layers s

  unfoldable pub file_processed :
      ℕ
      → MediaTypes
      → Bool
      → Text
      → Manifest
      → Model
      → b.State × Result ProcessError (List Descriptor)
      → b.State × Option Attached
  unfolding layers_known attach_layers
  file_processed now types force path source m (s, err e) = (s, none)
  file_processed now types force path source m (s, ok new) =
      layers_known now source m (attach_layers types force path source.layers new) s

  -- A file that is no config.
  unfoldable pub file_attached :
      ℕ
      → MediaTypes
      → Bool
      → Text
      → Manifest
      → Model
      → Processor
      → b.State
      → b.State × Option Attached
  unfolding file_processed refused find_layer process
  file_attached now types force path source m p s =
      if refused force (find_layer path source.layers)
      then (s, none)
      else file_processed now types force path source m
          (process r.paths b r.again r.attempts r.schedule r.sort p s)

  -- `Attach`, when the source, the processor and the builder are known.
  unfoldable pub attach_to :
      ℕ
      → MediaTypes
      → AttachOptions
      → Text
      → Manifest
      → Model
      → Option Model
      → Processor
      → b.State
      → b.State × Option Attached
  unfolding file_attached artifact_stored attach_path
  attach_to now types cfg path source m config_file p s =
      if cfg.config
      then artifact_stored source.layers source.annotations config_file s
      else file_attached now types cfg.force (attach_path r.paths cfg path) source m p s

  unfoldable pub target_checked :
      ℕ
      → MediaTypes
      → AttachOptions
      → Text
      → Manifest
      → Model
      → Option Model
      → Bool
      → Option Processor
      → b.State
      → b.State × Option Attached
  unfolding attach_to
  target_checked now types cfg path source m config_file target none s = (s, none)
  target_checked now types cfg path source m config_file target (some p) s =
      if target then attach_to now types cfg path source m config_file p s else (s, none)

  unfoldable pub source_known :
      ℕ
      → MediaTypes
      → AttachOptions
      → Text
      → Option Manifest
      → Option Model
      → Option Model
      → Bool
      → Option Processor
      → b.State
      → b.State × Option Attached
  unfolding target_checked
  source_known now types cfg path none m config_file target p s = (s, none)
  source_known now types cfg path (some source) none config_file target p s = (s, none)
  source_known now types cfg path (some source) (some m) config_file target p s =
      target_checked now types cfg path source m config_file target p s

  -- `Attach`: of the file at a path, to a target, from a source.
  unfoldable pub attach :
      ℕ
      → Humanize
      → Command.MediaTypes
      → AttachOptions
      → Text
      → Option ℕ
      → Option Model
      → Reference
      → Reference
      → Origin Manifest
      → Origin Model
      → b.State
      → b.State × Option Attached
  unfolding source_known get_manifest get_model_config get_processor is_target priority_types
  attach now u types cfg path size config_file target source manifests models s =
      source_known now (priority_types types) cfg path
        (get_manifest cfg.output_remote source manifests)
        (get_model_config cfg.output_remote source models) config_file (is_target target)
        (get_processor u types cfg.destination_dir path cfg.raw size) s
