-- ===== src/Modelfile/Samples/Folder.antt =====
-- Samples of file types, filters and workspaces: pkg/modelfile/constants.go, path_filter.go and
-- modelfile.go.
use modctl.Prelude.{
  has_prefix, err, none, Result, if◌then◌else◌, ◌<◌, ◌*◌, arith, some, ◌⊎◌, Bool, Option, [], all,
  false, ok, ◌↔◌, Text, ◌≡◌, refl, true, ◌∷◌, codes, text_eq,
}
use modctl.Modelfile.File.{empty_modelfile}
use modctl.Modelfile.FileType.{
  model, si_units, is_file_type, is_skippable, infer_file_type, max_single_file_size,
  max_total_workspace_size, size_should_be_weight_file, weight_file_size_threshold,
}
use modctl.Modelfile.FileType.Infer.{
  infer_file_type_model, infer_file_type-to_lower, is_skippable-hidden,
}
use modctl.Modelfile.Glob.{
  glob, base, to_lower, lower_rune, after_star, last_element, match_tokens, one_rune, ranges, takes,
  tokens,
}
use modctl.Modelfile.HashSet.{list_set}
use modctl.Modelfile.PathFilter.{
  new_path_filter, match_exclude, should_descend, clean, descend, match_include, match_patterns,
  trim_separators,
}
use modctl.Modelfile.PathFilter.Matching.{new_path_filter-cases, FilterOutcome}
use modctl.Modelfile.Patterns.{
  skip_patterns, doc_file_patterns, code_file_patterns, config_file_patterns, model_file_patterns,
}
use modctl.Modelfile.Record.{Modelfile}
use modctl.Modelfile.Workspace.{
  nil, file, cons, dir, Entry, Filter, Progress, take_file, walk, generate_by_workspace, add64,
  add_file, exceeds64, join_rel, visit_dir, visit_file,
}
use modctl.Modelfile.Workspace.Constructor.{
  GenerateConfig, JsonMap, string, GenerateError, new_modelfile_by_workspace, there, data_read,
  not_exist, apply_model_config, generate_by_config, generate_by_model_config, merge, read_configs,
  read_model_config, validate_workspace,
}
use modctl.Modelfile.Workspace.Events.{walk-run_events, run_events, events}
use modctl.Modelfile.Workspace.Generate.{generate_by_workspace-sets, GenerateOutcome}
use modctl.Modelfile.Workspace.Limits.{take_file-exact, is_sized, next}
use modctl.Modelfile.Workspace.Sources.{GeneratedFrom, new_modelfile_by_workspace-Generated}

is_skippable-hidden_example : is_skippable (b'.' ∷ codes "git") ≡ true
is_skippable-hidden_example = is_skippable-hidden (codes "git") refl (λ e. cc e) (λ e. cc e)

infer_file_type-to_lower_example :
    infer_file_type si_units (to_lower (codes "Big.BIN")) 5
    ≡ infer_file_type si_units (codes "Big.BIN") 5
infer_file_type-to_lower_example = infer_file_type-to_lower si_units (codes "Big.BIN") 5

-- A matcher that takes each pattern for itself.
abbrev exact : Text → Text → Option Bool
exact p path = some (text_eq p path)

new_path_filter-cases_example : FilterOutcome exact (codes "logs/" ∷ []) (codes ".env" ∷ [])
new_path_filter-cases_example = new_path_filter-cases exact (codes "logs/" ∷ []) (codes ".env" ∷ [])

abbrev no_filter : Filter
no_filter = record { matches = λ p. false; match_include = λ p. false; should_descend = λ p. false }

abbrev folder : Entry
folder = dir (codes "llama") (
    cons (file (codes "config.json") 700) (
      cons (dir (codes ".git") (cons (file (codes "HEAD") 20) nil))
        (cons (dir (codes "weights") (cons (file (codes "a.safetensors") 5000000000) nil)) nil)))

folder-sized : all is_sized (events no_filter (codes ".") folder) ≡ true
unfolding events is_skippable text_eq skip_patterns glob to_lower lower_rune
folder-sized = refl

generate_by_workspace-sets_example :
    GenerateOutcome si_units list_set no_filter folder (empty_modelfile list_set (codes "llama"))
generate_by_workspace-sets_example =
    generate_by_workspace-sets si_units list_set no_filter folder
      (empty_modelfile list_set (codes "llama")) folder-sized

abbrev started : Progress list_set
started = record {
  modelfile = empty_modelfile list_set (codes "llama");
  file_count = 0;
  total_size = 0;
}

walk-run_events_example :
    walk si_units no_filter (codes ".") folder started
    ≡ run_events si_units (events no_filter (codes ".") folder) started
walk-run_events_example = walk-run_events si_units list_set no_filter (codes ".") folder started

take_file-exact_example :
    take_file si_units (codes "a.bin") (codes "a.bin") 7 started
    ≡ ok (next si_units (codes "a.bin") (codes "a.bin") 7 started)
take_file-exact_example =
    take_file-exact si_units (codes "a.bin") (codes "a.bin") 7 started (omega arith) (omega arith)

infer_file_type_model_example :
    (infer_file_type si_units (codes "w.bin") 9 ≡ model)
    ↔ (is_file_type (codes "w.bin") config_file_patterns ≡ false)
      × ((is_file_type (codes "w.bin") model_file_patterns ≡ true)
          ⊎ ((is_file_type (codes "w.bin") code_file_patterns ≡ false)
              × (is_file_type (codes "w.bin") doc_file_patterns ≡ false)
              × (128 * 1000000 < 9)))
infer_file_type_model_example = infer_file_type_model si_units (codes "w.bin") 9

abbrev no_values : GenerateConfig
no_values = record {
  name = [];
  arch = [];
  family = codes "mine";
  format = [];
  param_size = [];
  precision = [];
  quantization = [];
  exclude_patterns = [];
  include_patterns = [];
}

-- A reader that finds one key in every file.
abbrev one_key : Text → Option JsonMap
one_key s =
    some (λ k. if text_eq k (codes "torch_dtype") then some (string (codes "bfloat16")) else none)

generated_run : Result GenerateError (Modelfile list_set)
generated_run =
    new_modelfile_by_workspace si_units exact one_key list_set (codes "/data/llama") no_values
      (there folder) (data_read []) not_exist

generated : Modelfile list_set
generated = elim generated_run [ ok mf ↦ mf | err e ↦ empty_modelfile list_set [] ]

generated_run-ok : generated_run ≡ ok generated
unfolding generated_run generated new_modelfile_by_workspace empty_modelfile text_eq has_prefix
    new_path_filter match_exclude should_descend clean descend match_include match_patterns
    trim_separators generate_by_workspace add64 add_file exceeds64 join_rel take_file visit_dir
    visit_file walk is_skippable max_single_file_size max_total_workspace_size infer_file_type
    is_file_type size_should_be_weight_file weight_file_size_threshold glob to_lower lower_rune base
    after_star last_element match_tokens one_rune ranges takes tokens skip_patterns
    config_file_patterns model_file_patterns code_file_patterns doc_file_patterns apply_model_config
    generate_by_config generate_by_model_config merge read_configs read_model_config
    validate_workspace
generated_run-ok = refl

new_modelfile_by_workspace-Generated_example :
    GeneratedFrom si_units exact one_key list_set
      (codes "/data/llama")
      no_values
      (there folder)
      (data_read [])
      not_exist
      generated
new_modelfile_by_workspace-Generated_example =
    new_modelfile_by_workspace-Generated si_units exact one_key list_set (codes "/data/llama")
      no_values (there folder) (data_read []) not_exist generated
      (unfold generated_run in generated_run-ok)
