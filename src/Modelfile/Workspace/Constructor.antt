-- ===== src/Modelfile/Workspace/Constructor.antt =====
-- The rest of `NewModelfileByWorkspace`: the validation, the model configuration, the command line's
-- values, and the getters of pkg/modelfile/modelfile.go.
use modctl.Prelude.{Bool, Option, none, some, List, [], ◌∷◌, Text, codes, Result, ok, err, ◌>>=◌}
use modctl.Modelfile.File.{empty_modelfile}
use modctl.Modelfile.FileType.{Humanize}
use modctl.Modelfile.Glob.{base}
use modctl.Modelfile.HashSet.{HashSet}
use modctl.Modelfile.PathFilter.{
  PathFilter, FilterError, new_path_filter, match_exclude, match_include, should_descend,
}
use modctl.Modelfile.Record.{Modelfile}
use modctl.Modelfile.Workspace.{
  Entry, file, dir, blocked, nil, cons, Filter, WalkError, generate_by_workspace,
}

-- What `os.Lstat` tells of the workspace, and with a directory the tree below it.
pub data Found : Type 0 where
  missing symlink : Found
  there : Entry → Found

pub data GenerateError : Type 0 where
  access_failed is_symlink not_a_directory unreadable empty_workspace : GenerateError
  filter_error : FilterError → GenerateError
  failed : WalkError → GenerateError
  unreadable_config : Text → GenerateError

unfoldable pub validate_workspace : Found → Result GenerateError Entry
validate_workspace missing = err access_failed
validate_workspace symlink = err is_symlink
validate_workspace (there (file name size)) = err not_a_directory
validate_workspace (there (blocked name)) = err unreadable
validate_workspace (there (dir name nil)) = err empty_workspace
validate_workspace (there (dir name (cons e es))) = ok (dir name (cons e es))

-- A value of a JSON object, as far as the code tells them apart.
pub data Json : Type 0 where
  string : Text → Json
  other : Json

-- `os.ReadFile` of one of the two configuration files.
pub data FileRead : Type 0 where
  not_exist read_error : FileRead
  data_read : Text → FileRead

-- The fields of the configuration that the generation reads.
pub record GenerateConfig : Type 0 where
  pub name : Text
  pub arch : Text
  pub family : Text
  pub format : Text
  pub param_size : Text
  pub precision : Text
  pub quantization : Text
  pub exclude_patterns : List Text
  pub include_patterns : List Text

-- A map of Go with its keys.
abbrev pub JsonMap : Type 0
JsonMap = Text → Option Json

-- The copying loop: the keys of the second map come over those of the first.
unfoldable pub merge : JsonMap → JsonMap → JsonMap
merge old new k = elim (new k) [ none ↦ old k | some v ↦ some v ]

module _ {h : HashSet} where
  unfoldable pub apply_model_config : JsonMap → Modelfile h → Modelfile h
  apply_model_config m mf = record mf {
    precision = elim (m (codes "torch_dtype")) [ some (string s) ↦ s | _ ↦ mf.precision ];
    family = elim (m (codes "model_type")) [ some (string s) ↦ s | _ ↦ mf.family ];
    arch = elim (m (codes "transformers_version")) [
      | none ↦ mf.arch
      | some v ↦ codes "transformer"
    ];
  }

module _ (unmarshal : Text → Option JsonMap) where
  -- The loop over the files.
  unfoldable pub read_configs : List (Text × FileRead) → JsonMap → Result GenerateError JsonMap
  unfolding merge
  read_configs [] m = ok m
  read_configs ((name, not_exist) ∷ files) m = read_configs files m
  read_configs ((name, read_error) ∷ files) m = err (unreadable_config name)
  read_configs ((name, data_read s) ∷ files) m =
      read_configs files (elim (unmarshal s) [ none ↦ m | some config ↦ merge m config ])

  -- The two files, in their order.
  unfoldable pub read_model_config : FileRead → FileRead → Result GenerateError JsonMap
  unfolding read_configs
  read_model_config config_json generation_config_json =
      read_configs
        ((codes "config.json", config_json)
          ∷ (codes "generation_config.json", generation_config_json)
          ∷ [])
        (λ k. none)

  module _ {h : HashSet} where
    unfoldable pub generate_by_model_config :
        (config_json generation_config_json : FileRead)
        → Modelfile h
        → Result GenerateError (Modelfile h)
    unfolding read_model_config apply_model_config
    generate_by_model_config config_json generation_config_json mf = do
      m ← read_model_config config_json generation_config_json
      ok (apply_model_config m mf)

-- `if v != "" { field = v }`.
abbrev pub set_unless_empty : Text → Text → Text
set_unless_empty [] old = old
set_unless_empty (c ∷ s) old = c ∷ s

module _ {h : HashSet} where
  unfoldable pub generate_by_config : GenerateConfig → Modelfile h → Modelfile h
  generate_by_config config mf = record mf {
    name = set_unless_empty config.name (base mf.workspace);
    arch = set_unless_empty config.arch mf.arch;
    family = set_unless_empty config.family mf.family;
    format = set_unless_empty config.format mf.format;
    paramsize = set_unless_empty config.param_size mf.paramsize;
    precision = set_unless_empty config.precision mf.precision;
    quantization = set_unless_empty config.quantization mf.quantization;
  }

abbrev pub map_err : {E F A : Type 0} → (E → F) → Result E A → Result F A
map_err f (ok a) = ok a
map_err f (err e) = err (f e)

abbrev pub filter_of : (Text → Text → Option Bool) → PathFilter → Filter
filter_of path_match pf = record {
  matches = match_exclude path_match pf;
  match_include = match_include path_match pf;
  should_descend = should_descend path_match pf;
}

module _ (u : Humanize) (path_match : Text → Text → Option Bool)
    (unmarshal : Text → Option JsonMap) where
  -- `NewModelfileByWorkspace` on a workspace as it is found, with the two configuration files.
  unfoldable pub new_modelfile_by_workspace :
      (h : HashSet) (workspace : Text) (config : GenerateConfig)
      → Found
      → (config_json generation_config_json : FileRead) → Result GenerateError (Modelfile h)
  unfolding validate_workspace generate_by_model_config generate_by_config
  new_modelfile_by_workspace h workspace config found config_json generation_config_json = do
    root ← validate_workspace found
    pf ←
        map_err filter_error
          (new_path_filter path_match config.exclude_patterns config.include_patterns)
    walked ←
        map_err failed
          (generate_by_workspace u (filter_of path_match pf) root (empty_modelfile h workspace))
    mf ← generate_by_model_config unmarshal config_json generation_config_json walked
    ok (generate_by_config config mf)

module _ {h : HashSet} where
  -- The set of strings as a slice: every element is a string.
  unfoldable pub get_configs : Modelfile h → List Text
  get_configs mf = h.values mf.config

  unfoldable pub get_models : Modelfile h → List Text
  get_models mf = h.values mf.model

  unfoldable pub get_codes : Modelfile h → List Text
  get_codes mf = h.values mf.code

  unfoldable pub get_datasets : Modelfile h → List Text
  get_datasets mf = h.values mf.dataset

  unfoldable pub get_docs : Modelfile h → List Text
  get_docs mf = h.values mf.doc
