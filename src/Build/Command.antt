-- ===== src/Build/Command.antt =====
-- pkg/backend/build.go: `Build`. The builder is the one that `NewBuilder` makes; the reference of
-- the target, the source control and the clock are given by what they yield.
use modctl.Prelude.{
  ℕ, Bool, false, not, ◌&&◌, Option, none, some, List, [], ◌∷◌, ◌++◌, if◌then◌else◌, Text, codes,
  is_empty, Result, ok, err, then_with,
}
use modctl.Artifact.{Descriptor, Model}
use modctl.Modelfile.HashSet.{HashSet}
use modctl.Modelfile.Record.{Modelfile}
use modctl.Modelfile.File.{FileError, new_modelfile}
use modctl.Modelfile.Content.{content}
use modctl.Retry.{retry}
use modctl.Build.Builder.{Builder}
use modctl.Build.Config.{ModelConfig, build_model_config}
use modctl.Build.Process.{Paths, Processor, ProcessError, process}
pub mod Order
pub mod Samples

-- The fields of `config.Build` that are read here.
pub record BuildOptions : Type 0 where
  pub source_url : Text
  pub source_revision : Text
  pub raw : Bool
  pub reasoning : Bool
  pub no_creation_time : Bool

-- `source.Info`.
pub record SourceInfo : Type 0 where
  pub url : Text
  pub commit : Text
  pub dirty : Bool

pub data ParserType : Type 0 where
  git zeta : ParserType

-- What stands in the work directory, and what the parsers make of it.
pub record Workspace : Type 0 where
  pub has_git : Bool
  pub has_zeta : Bool
  pub parse : ParserType → Option SourceInfo

-- The media types of a kind of files, packed and raw.
pub record MediaType : Type 0 where
  pub packed : Text
  pub unpacked : Text

pub record MediaTypes : Type 0 where
  pub weight_config : MediaType
  pub weight : MediaType
  pub code : MediaType
  pub doc : MediaType

unfoldable pub given_source : BuildOptions → SourceInfo
given_source cfg = record { url = cfg.source_url; commit = cfg.source_revision; dirty = false }

-- The parser that the two tests leave.
unfoldable pub source_parser : Workspace → Option ParserType
source_parser ws = if ws.has_zeta then some zeta else if ws.has_git then some git else none

unfoldable pub parsed_source : Workspace → BuildOptions → Option ParserType → Option SourceInfo
unfolding given_source
parsed_source ws cfg none = some (given_source cfg)
parsed_source ws cfg (some parser) = ws.parse parser

unfoldable pub get_source_info : Workspace → BuildOptions → Option SourceInfo
unfolding source_parser parsed_source given_source
get_source_info ws cfg =
    if is_empty cfg.source_url
    then parsed_source ws cfg (source_parser ws)
    else some (given_source cfg)

unfoldable pub revision_of : SourceInfo → Text
revision_of info =
    if not (is_empty info.commit) && info.dirty then info.commit ++ codes "-dirty" else info.commit

unfoldable pub media_type_of : Bool → MediaType → Text
media_type_of raw type = if raw then type.unpacked else type.packed

-- The processor of a kind, if the Modelfile names any of it.
unfoldable pub processor_of : Bool → MediaType → List Text → List Processor
unfolding media_type_of
processor_of raw type [] = []
processor_of raw type (p ∷ ps) =
    record { media_type = media_type_of raw type; patterns = p ∷ ps; dest_dir = [] } ∷ []

-- `getProcessors`: the data sets of the Modelfile have none.
unfoldable pub get_processors : {h : HashSet} → MediaTypes → Modelfile h → Bool → List Processor
unfolding processor_of
get_processors {h} types mf raw =
    processor_of raw types.weight_config (h.values mf.config)
    ++ (processor_of raw types.weight (h.values mf.model)
        ++ (processor_of raw types.code (h.values mf.code)
            ++ processor_of raw types.doc (h.values mf.doc)))

unfoldable pub model_config_of :
    {h : HashSet} → Modelfile h → SourceInfo → BuildOptions → ModelConfig
unfolding revision_of
model_config_of mf info cfg = record {
  architecture = mf.arch;
  format = mf.format;
  precision = mf.precision;
  quantization = mf.quantization;
  param_size = mf.paramsize;
  family = mf.family;
  name = mf.name;
  source_url = info.url;
  source_revision = revision_of info;
  reasoning = cfg.reasoning;
  no_creation_time = cfg.no_creation_time;
}

unfoldable pub manifest_annotation : {h : HashSet} → Text → Modelfile h → List (Text × Text)
unfolding content
manifest_annotation build_time mf = (codes "org.cncf.modctl.modelfile", content build_time mf) ∷ []

-- What `Process` needs: the paths, the retries, and the orders that the code does not fix.
pub record Run (b : Builder) : Type 0 where
  pub paths : Paths
  pub again : b.State → Option Descriptor → Bool
  pub attempts : ℕ
  pub schedule : List Text → List Text
  pub sort : List Descriptor → List Descriptor

module _ (b : Builder) (r : Run b) where
  -- The layers of one processor before those of the others.
  unfoldable pub with_layers :
      b.State × Result ProcessError (List Descriptor)
      → (b.State → b.State × Option (List Descriptor))
      → b.State × Option (List Descriptor)
  with_layers (s, err e) rest = (s, none)
  with_layers (s, ok descs) rest =
      let (t, others) = rest s in (t, elim others [ none ↦ none | some ds ↦ some (descs ++ ds) ])

  -- `process`.
  unfoldable pub process_all : List Processor → b.State → b.State × Option (List Descriptor)
  unfolding with_layers process
  process_all [] s = (s, some [])
  process_all (p ∷ ps) s =
      with_layers (process r.paths b r.again r.attempts r.schedule r.sort p s) (process_all ps)

  unfoldable pub manifest_built :
      List Descriptor → List (Text × Text) → Descriptor → b.State → b.State × Option Descriptor
  manifest_built layers annotations config s =
      retry r.again r.attempts (λ t. b.build_manifest t layers config annotations) s

  unfoldable pub config_built :
      List Descriptor → List (Text × Text) → Option Model → b.State → b.State × Option Descriptor
  unfolding manifest_built
  config_built layers annotations none s = (s, none)
  config_built layers annotations (some config) s =
      then_with (retry r.again r.attempts (λ t. b.build_config t config) s)
        (manifest_built layers annotations)

  -- What follows the tests of the arguments. The result is the manifest's descriptor, or `none` for
  -- an error.
  unfoldable pub artifact_built :
      ℕ
      → Text
      → MediaTypes
      → BuildOptions
      → {h : HashSet} → Modelfile h
      → SourceInfo
      → b.State
      → b.State × Option Descriptor
  unfolding process_all config_built get_processors model_config_of manifest_annotation
      build_model_config
  artifact_built now build_time types cfg mf info s =
      then_with (process_all (get_processors types mf cfg.raw) s) (λ layers.
        config_built layers (manifest_annotation build_time mf)
          (build_model_config now (some (model_config_of mf info cfg)) layers))

  unfoldable pub source_known :
      ℕ
      → Text
      → MediaTypes
      → BuildOptions
      → {h : HashSet} → Modelfile h
      → Option SourceInfo
      → b.State
      → b.State × Option Descriptor
  unfolding artifact_built
  source_known now build_time types cfg mf none s = (s, none)
  source_known now build_time types cfg mf (some info) s =
      artifact_built now build_time types cfg mf info s

  unfoldable pub modelfile_read :
      ℕ
      → Text
      → MediaTypes
      → BuildOptions
      → Workspace
      → Text
      → {h : HashSet} → Result FileError (Modelfile h)
      → b.State
      → b.State × Option Descriptor
  unfolding source_known get_source_info
  modelfile_read now build_time types cfg ws tag (err e) s = (s, none)
  modelfile_read now build_time types cfg ws tag (ok mf) s =
      if is_empty tag
      then (s, none)
      else source_known now build_time types cfg mf (get_source_info ws cfg) s

  -- `Build` of a Modelfile's content, for the repository and the tag of a target.
  unfoldable pub build :
      ℕ
      → Text
      → MediaTypes
      → BuildOptions
      → Workspace
      → HashSet
      → Option Text
      → Option (Text × Text)
      → b.State
      → b.State × Option Descriptor
  unfolding modelfile_read new_modelfile
  build now build_time types cfg ws h file none s = (s, none)
  build now build_time types cfg ws h file (some (repo, tag)) s =
      modelfile_read now build_time types cfg ws tag (new_modelfile h file) s
