-- ===== src/Modelfile/Workspace/Sources.antt =====
-- Where each field of a generated Modelfile comes from.
use modctl.Prelude.{
  ok-injective, ◌≡◌, refl, sym, ap, ◌∙◌, subst, Bool, false, ◌||◌, Option, none, some, List, [],
  ◌∷◌, arith, any, Text, codes, mem, Result, ok, err, ◌>>=◌, >>=-eq-ok,
}
use modctl.Modelfile.File.{empty_modelfile}
use modctl.Modelfile.FileType.{Humanize, FileType}
use modctl.Modelfile.Glob.{base}
use modctl.Modelfile.HashSet.{HashSet}
use modctl.Modelfile.PathFilter.{PathFilter, new_path_filter}
use modctl.Modelfile.Record.{Modelfile, One}
use modctl.Modelfile.Workspace.{Entry, generate_by_workspace}
use modctl.Modelfile.Workspace.Constructor.{
  read_model_config, failed, filter_error, GenerateConfig, GenerateError, Found, FileRead, JsonMap,
  string, set_unless_empty, filter_of, new_modelfile_by_workspace, validate_workspace,
  generate_by_model_config, apply_model_config, generate_by_config, map_err,
}
use modctl.Modelfile.Workspace.Events.{Event, events}
use modctl.Modelfile.Workspace.Generate.{files_of, is_file_at, mem-sorted}
use modctl.Modelfile.Workspace.Kept.{
  generate_by_workspace-sorts, get_one-sorted, dataset-sorted, workspace-sorted,
}
use modctl.Modelfile.Workspace.Limits.{sorted}

abbrev pub string_at : JsonMap → Text → Text
string_at m k = elim (m k) [ some (string s) ↦ s | _ ↦ [] ]

abbrev pub arch_of : JsonMap → Text
arch_of m = elim (m (codes "transformers_version")) [ none ↦ [] | some v ↦ codes "transformer" ]

-- Each field of the result: a value of the command line goes before the model's configuration, the
-- name defaults to the workspace's base name, and the sets hold the files seen of their type.
pub record Generated (u : Humanize) {h : HashSet} (workspace : Text) (config : GenerateConfig)
    (m : JsonMap) (es : List Event) (mf : Modelfile h) : Type 0 where
  pub name : mf.name ≡ set_unless_empty config.name (base workspace)
  pub arch : mf.arch ≡ set_unless_empty config.arch (arch_of m)
  pub family : mf.family ≡ set_unless_empty config.family (string_at m (codes "model_type"))
  pub precision :
      mf.precision ≡ set_unless_empty config.precision (string_at m (codes "torch_dtype"))
  pub format : mf.format ≡ config.format
  pub paramsize : mf.paramsize ≡ config.param_size
  pub quantization : mf.quantization ≡ config.quantization
  pub files :
      (t : FileType) (x : Text) → mem x (h.values (files_of mf t)) ≡ any (is_file_at u t x) es
  pub no_dataset : (x : Text) → mem x (h.values mf.dataset) ≡ false

or-false : (b : Bool) → (b || false) ≡ b
or-false b = ground arith

set_unless_empty-nil : (v : Text) → set_unless_empty v [] ≡ v
set_unless_empty-nil [] = refl
set_unless_empty-nil (c ∷ s) = refl

map_err-eq-ok :
    {E F A : Type 0} (f : E → F) (r : Result E A) {a : A} → map_err f r ≡ ok a → r ≡ ok a
map_err-eq-ok f (ok b) e = cc e
map_err-eq-ok f (err b) e = cc

module _ (u : Humanize) (path_match : Text → Text → Option Bool) (unmarshal : Text → Option JsonMap)
    (h : HashSet) (workspace : Text) (config : GenerateConfig) where
  fresh : Modelfile h
  fresh = empty_modelfile h workspace

  files_of-kept :
      (m : JsonMap) (a : Modelfile h) (t : FileType)
      → files_of (generate_by_config config (apply_model_config m a)) t ≡ files_of a t
  unfolding generate_by_config apply_model_config
  files_of-kept m a FileType.config = refl
  files_of-kept m a FileType.model = refl
  files_of-kept m a FileType.code = refl
  files_of-kept m a FileType.doc = refl

  files_of-new : (t : FileType) (x : Text) → mem x (h.values (files_of fresh t)) ≡ false
  unfolding empty_modelfile fresh
  files_of-new FileType.config x = h.mem-new x
  files_of-new FileType.model x = h.mem-new x
  files_of-new FileType.code x = h.mem-new x
  files_of-new FileType.doc x = h.mem-new x

  sorted-Generated :
      (m : JsonMap) (es : List Event)
      → Generated u workspace config m es (
          generate_by_config config
            (apply_model_config m (sorted u es (empty_modelfile h workspace))))
  unfolding generate_by_config apply_model_config empty_modelfile fresh
  sorted-Generated m es = record {
    name = ap (λ w. set_unless_empty config.name (base w)) (workspace-sorted u es fresh);
    arch =
        ap
          (λ old.
            set_unless_empty config.arch (elim (m (codes "transformers_version")) [
              | none ↦ old
              | some v ↦ codes "transformer"
            ]))
          (get_one-sorted u One.arch es fresh);
    family =
        ap
          (λ old.
            set_unless_empty config.family
              (elim (m (codes "model_type")) [ some (string s) ↦ s | _ ↦ old ]))
          (get_one-sorted u One.family es fresh);
    precision =
        ap
          (λ old.
            set_unless_empty config.precision
              (elim (m (codes "torch_dtype")) [ some (string s) ↦ s | _ ↦ old ]))
          (get_one-sorted u One.precision es fresh);
    format =
        ap (set_unless_empty config.format) (get_one-sorted u One.format es fresh)
        ∙ set_unless_empty-nil config.format;
    paramsize =
        ap (set_unless_empty config.param_size) (get_one-sorted u One.paramsize es fresh)
        ∙ set_unless_empty-nil config.param_size;
    quantization =
        ap (set_unless_empty config.quantization) (get_one-sorted u One.quantization es fresh)
        ∙ set_unless_empty-nil config.quantization;
    files = λ t x.
        ap (λ s. mem x (h.values s)) (files_of-kept m (sorted u es fresh) t)
        ∙ mem-sorted u t x es fresh
        ∙ ap (λ b. any (is_file_at u t x) es || b) (files_of-new t x)
        ∙ or-false (any (is_file_at u t x) es);
    no_dataset = λ x. ap (λ s. mem x (h.values s)) (dataset-sorted u es fresh) ∙ h.mem-new x;
  }

generate_by_model_config-eq-ok :
    (unmarshal : Text → Option JsonMap) (h : HashSet)
    (config_json generation_config_json : FileRead) (mf mf' : Modelfile h)
    → generate_by_model_config unmarshal config_json generation_config_json mf ≡ ok mf'
    → (m : JsonMap) × (read_model_config unmarshal config_json generation_config_json ≡ ok m)
      × (apply_model_config m mf ≡ mf')
unfolding generate_by_model_config
generate_by_model_config-eq-ok unmarshal h config_json generation_config_json mf mf' e =
    let (m, read, applied) =
      >>=-eq-ok (read_model_config unmarshal config_json generation_config_json)
        (λ m. ok (apply_model_config m mf)) e in
    (m, read, ok-injective applied)

module _ (u : Humanize) (path_match : Text → Text → Option Bool) (unmarshal : Text → Option JsonMap)
    (h : HashSet) (workspace : Text) (config : GenerateConfig)
    (config_json generation_config_json : FileRead) where
  -- The steps behind each of the calls that can fail.
  abbrev from_walk : Modelfile h → Result GenerateError (Modelfile h)
  from_walk walked =
      generate_by_model_config unmarshal config_json generation_config_json walked
      >>= (λ mf. ok (generate_by_config config mf))

  abbrev from_filter : Entry → PathFilter → Result GenerateError (Modelfile h)
  from_filter root pf =
      map_err failed
        (generate_by_workspace u (filter_of path_match pf) root (empty_modelfile h workspace))
      >>= from_walk

  abbrev from_root : Entry → Result GenerateError (Modelfile h)
  from_root root =
      map_err filter_error
        (new_path_filter path_match config.exclude_patterns config.include_patterns)
      >>= from_filter root

abbrev pub GeneratedFrom :
    (u : Humanize) (path_match : Text → Text → Option Bool) (unmarshal : Text → Option JsonMap)
    (h : HashSet) (workspace : Text) (config : GenerateConfig) (place : Found)
    (config_json generation_config_json : FileRead) (mf : Modelfile h)
    → Type 0
GeneratedFrom u path_match unmarshal h workspace config place config_json generation_config_json
      mf =
    (root : Entry) × (pf : PathFilter) × (m : JsonMap) × (validate_workspace place ≡ ok root)
    × (new_path_filter path_match config.exclude_patterns config.include_patterns ≡ ok pf)
    × (read_model_config unmarshal config_json generation_config_json ≡ ok m)
    × Generated u workspace config m (events (filter_of path_match pf) (codes ".") root) mf

-- If the Modelfile of a workspace is generated, then the workspace was valid, the patterns and both
-- configuration files were read, and every field of the result comes from its source as `Generated`
-- says.
pub new_modelfile_by_workspace-Generated :
    (u : Humanize) (path_match : Text → Text → Option Bool) (unmarshal : Text → Option JsonMap)
    (h : HashSet) (workspace : Text) (config : GenerateConfig) (place : Found)
    (config_json generation_config_json : FileRead) (mf : Modelfile h)
    → new_modelfile_by_workspace u path_match unmarshal h workspace config place config_json
        generation_config_json
      ≡ ok mf
    → GeneratedFrom u path_match unmarshal h workspace config place config_json
        generation_config_json mf
unfolding new_modelfile_by_workspace
new_modelfile_by_workspace-Generated u path_match unmarshal h workspace config place config_json
      generation_config_json mf e =
    let (root, valid, e1) =
      >>=-eq-ok (validate_workspace place)
        (from_root u path_match unmarshal h workspace config config_json generation_config_json)
        e in
    let (pf, filtered, e2) =
      >>=-eq-ok
        (map_err filter_error
          (new_path_filter path_match config.exclude_patterns config.include_patterns))
        (from_filter u path_match unmarshal h workspace config config_json generation_config_json
          root)
        e1 in
    let (walked, walk_ok, e3) =
      >>=-eq-ok
        (map_err failed
          (generate_by_workspace u (filter_of path_match pf) root (empty_modelfile h workspace)))
        (from_walk u path_match unmarshal h workspace config config_json generation_config_json)
        e2 in
    let (with_model, made, e4) =
      >>=-eq-ok (generate_by_model_config unmarshal config_json generation_config_json walked)
        (λ a. ok (generate_by_config config a)) e3 in
    let (m, read, applied) =
      generate_by_model_config-eq-ok unmarshal h config_json generation_config_json walked
        with_model made in
    let es = events (filter_of path_match pf) (codes ".") root in
    let walk_sorts =
      generate_by_workspace-sorts u (filter_of path_match pf) root (empty_modelfile h workspace)
        walked (map_err-eq-ok failed _ walk_ok) in
    (
      root,
      pf,
      m,
      valid,
      map_err-eq-ok filter_error _ filtered,
      read,
      subst (Generated u workspace config m es)
          (ap (λ a. generate_by_config config (apply_model_config m a)) (sym walk_sorts)
            ∙ ap (generate_by_config config) applied
            ∙ ok-injective e4)
          (sorted-Generated u path_match unmarshal h workspace config m es),
    )
