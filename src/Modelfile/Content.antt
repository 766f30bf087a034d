-- ===== src/Modelfile/Content.antt =====
-- `Content` of pkg/modelfile/modelfile.go and the functions that it calls.
pub mod Sorting
pub mod Lines
pub mod Readable
pub mod Values
pub mod Blocks
pub mod RoundTrip
pub mod Unreadable
pub mod SpacedName
use modctl.Prelude.{
  ℕ, Text, codes, text_lt, List, [], ◌∷◌, ◌++◌, Bool, ◌||◌, ◌==◌, any, if◌then◌else◌,
}
use modctl.Modelfile.HashSet.{HashSet}
use modctl.Modelfile.Patterns.{
  config_file_patterns, model_file_patterns, code_file_patterns, doc_file_patterns,
}
use modctl.Modelfile.Record.{Modelfile}
use modctl.Modelfile.Command

-- `strings.Join(patterns, ", ")`.
unfoldable pub join : List Text → Text
join [] = []
join (p ∷ []) = p
join (p ∷ q ∷ ps) = p ++ codes ", " ++ join (q ∷ ps)

insert_sorted : Text → List Text → List Text
insert_sorted x [] = x ∷ []
insert_sorted x (y ∷ ys) = if text_lt y x then y ∷ insert_sorted x ys else x ∷ y ∷ ys

-- `sort.Strings`: strings that compare equal are the same, so any sorting function gives this list.
unfoldable pub sort_strings : List Text → List Text
unfolding insert_sorted
sort_strings [] = []
sort_strings (x ∷ xs) = insert_sorted x (sort_strings xs)

-- `strings.ContainsAny(value, " \t\n\r")`.
unfoldable pub has_blank : Text → Bool
has_blank = any (λ c. c == b' ' || c == b'\t' || c == b'\n' || c == b'\r')

-- `strings.ReplaceAll(value, "\"", "\\\"")`.
unfoldable pub escape_quotes : Text → Text
escape_quotes [] = []
escape_quotes (c ∷ s) =
    let rest = escape_quotes s in if c == b'"' then b'\\' ∷ c ∷ rest else c ∷ rest

unfoldable pub quote_if_needed : Text → Text
unfolding has_blank escape_quotes
quote_if_needed value = if has_blank value then b'"' ∷ escape_quotes value ++ b'"' ∷ [] else value

abbrev is_nil : {A : Type 0} → List A → Bool
is_nil [] = Bool.true
is_nil (x ∷ xs) = Bool.false

abbrev newline : Text
newline = b'\n' ∷ []

unfoldable pub write_field : Text → Text → Text → Text
write_field comment cmd value =
    if is_nil value
    then []
    else newline ++ codes "# " ++ comment ++ newline ++ cmd ++ codes " " ++ value ++ newline

-- One line for each value, by the loop over the sorted values.
unfoldable pub write_values : Text → List Text → Text
write_values cmd [] = []
write_values cmd (v ∷ vs) = cmd ++ codes " " ++ quote_if_needed v ++ newline ++ write_values cmd vs

unfoldable pub write_multi_field : Text → Text → List Text → List Text → Text
unfolding join sort_strings write_values
write_multi_field comment cmd values patterns =
    if is_nil values
    then []
    else newline
      ++ codes "# "
      ++ comment
      ++ newline
      ++ codes "# Supported file types: "
      ++ join patterns
      ++ newline
      ++ write_values cmd (sort_strings values)

-- `now` is the time of the call in RFC 3339.
unfoldable pub content : {h : HashSet} → Text → Modelfile h → Text
unfolding write_field write_multi_field
content {h} now mf =
    codes "# Generated at "
    ++ now
    ++ newline
    ++ write_field (codes "Model name") Command.name mf.name
    ++ write_field (codes "Model architecture (Generated from transformers_version in config.json)")
        Command.arch mf.arch
    ++ write_field (codes "Model family (Generated from model_type in config.json)") Command.family
        mf.family
    ++ write_field (codes "Model format") Command.format mf.format
    ++ write_field (codes "Model paramsize") Command.paramsize mf.paramsize
    ++ write_field (codes "Model precision (Generated from torch_dtype in config.json)")
        Command.precision mf.precision
    ++ write_field (codes "Model quantization") Command.quantization mf.quantization
    ++ write_multi_field
        (codes "Config files (Generated from the files in the workspace directory)") Command.config
        (h.values mf.config) config_file_patterns
    ++ write_multi_field (codes "Code files (Generated from the files in the workspace directory)")
        Command.code (h.values mf.code) code_file_patterns
    ++ write_multi_field (codes "Model files (Generated from the files in the workspace directory)")
        Command.model (h.values mf.model) model_file_patterns
    ++ write_multi_field
        (codes "Documentation files (Generated from the files in the workspace directory)")
        Command.doc (h.values mf.doc) doc_file_patterns
