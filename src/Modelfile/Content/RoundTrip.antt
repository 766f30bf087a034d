-- ===== src/Modelfile/Content/RoundTrip.antt =====
-- `NewModelfile` reads back what `Content` writes.
use modctl.Prelude.{
  sym, err, subst, ap, Result, ◌∙◌, ok, ◌≤◌, length, String, ◌&&◌, ◌==◌, arith, ◌+◌, ltb, not,
  &&-eq-true, all, append-nil, All-append, byte_length, text_eq, true, append_assoc, All, false,
  none, mem, Text, List, [], ◌∷◌, ◌++◌, ◌≡◌, ◌≢◌, refl, some, Bool, codes,
}
use modctl.Modelfile.Ast.{get_children, Node}
use modctl.Modelfile.Content.{join, sort_strings, content}
use modctl.Modelfile.Content.Blocks.{
  AllRead-multi_lines, AllRead-field_lines, list_args-multi_lines, list_args-field_lines,
  write_multi_field_lem, write_field_lem, field_lines, multi_lines, IsPrinted, IsComment, Fits,
}
use modctl.Modelfile.Content.Lines.{
  parse-unlines, ReadsAs, list_args-append, list_args, unlines-append, Line, unlines, AllRead,
}
use modctl.Modelfile.Content.Readable.{ReadsAs-comment}
use modctl.Modelfile.Content.Sorting.{mem-sort_strings}
use modctl.Modelfile.Content.Values.{IsPlain}
use modctl.Modelfile.File.{FileError, new_modelfile}
use modctl.Modelfile.File.Describes.{Outcome, new_modelfile-Outcome}
use modctl.Modelfile.File.Fields.{IsRepeated, Describes, args_of, optional}
use modctl.Modelfile.HashSet.{HashSet}
use modctl.Modelfile.Lexical.{max_token_size}
use modctl.Modelfile.Parser.{parse}
use modctl.Modelfile.Patterns.{
  config_file_patterns, model_file_patterns, code_file_patterns, doc_file_patterns,
}
use modctl.Modelfile.Record.{Many, One, Field, many, one, Modelfile, get_many, get_one}

-- A Modelfile that `Content` can write so that it can be read. The time stamp stands on one line.
pub record IsWritable {h : HashSet} (now : Text) (mf : Modelfile h) : Type 0 where
  pub stamp : IsComment (codes "Generated at " ++ now)
  pub ones : (o : One) → IsPlain (get_one mf o) × Fits (one o) (get_one mf o)
  pub manys : (m : Many) → m ≢ Many.dataset → All (IsPrinted (many m)) (h.values (get_many mf m))

-- The fields that `Content` writes are the same, as sets where they are sets.
pub record SameFields {h : HashSet} (a b : Modelfile h) : Type 0 where
  pub ones : (o : One) → get_one a o ≡ get_one b o
  pub manys :
      (m : Many)
      → m ≢ Many.dataset
      → (x : Text) → mem x (h.values (get_many a m)) ≡ mem x (h.values (get_many b m))
  pub no_dataset : (x : Text) → mem x (h.values a.dataset) ≡ false

abbrev is_comment_text : Text → Bool
is_comment_text t = all (λ c. not (c == b'\n')) t && ltb (byte_length t + 2) max_token_size

IsComment-of_test : (t : Text) → is_comment_text t ≡ true → IsComment t
IsComment-of_test t h =
    let (line, short) = &&-eq-true _ (ltb (byte_length t + 2) max_token_size) h in
    (line, ground arith)

record Readable (ls : List Line) : Type 0 where
  rows : AllRead ls

infixl 65 ◌⊕◌
◌⊕◌ : {xs ys : List Line} → Readable xs → Readable ys → Readable (xs ++ ys)
◌⊕◌ {xs} {ys} a b = record { rows = All-append (λ p. ReadsAs p.0 p.1) xs ys a.rows b.rows }

ruleset block_args = (list_args-append, list_args-field_lines, list_args-multi_lines)

module _ {h : HashSet} (now : Text) (mf : Modelfile h) where
  -- The lines behind the name's, and all.
  unfoldable pub content_tail : List Line
  content_tail =
      field_lines (codes "Model architecture (Generated from transformers_version in config.json)")
        (one One.arch) mf.arch
      ++ field_lines (codes "Model family (Generated from model_type in config.json)")
          (one One.family) mf.family
      ++ field_lines (codes "Model format") (one One.format) mf.format
      ++ field_lines (codes "Model paramsize") (one One.paramsize) mf.paramsize
      ++ field_lines (codes "Model precision (Generated from torch_dtype in config.json)")
          (one One.precision) mf.precision
      ++ field_lines (codes "Model quantization") (one One.quantization) mf.quantization
      ++ multi_lines (codes "Config files (Generated from the files in the workspace directory)")
          (many Many.config) (h.values mf.config) config_file_patterns
      ++ multi_lines (codes "Code files (Generated from the files in the workspace directory)")
          (many Many.code) (h.values mf.code) code_file_patterns
      ++ multi_lines (codes "Model files (Generated from the files in the workspace directory)")
          (many Many.model) (h.values mf.model) model_file_patterns
      ++ multi_lines
          (codes "Documentation files (Generated from the files in the workspace directory)")
          (many Many.doc) (h.values mf.doc) doc_file_patterns

  unfoldable pub content_lines : List Line
  unfolding content_tail
  content_lines =
      (codes "# " ++ (codes "Generated at " ++ now), none) ∷ []
      ++ field_lines (codes "Model name") (one One.name) mf.name
      ++ content_tail

  pub content_lem : content now mf ≡ unlines content_lines
  unfolding content content_lines
  content_lem =
      simp unlines-append
        (simp (← write_field_lem, ← write_multi_field_lem) (unfold unlines in simp append_assoc))

  Readable-content_lines : IsWritable now mf → Readable content_lines
  unfolding content_lines byte_length join config_file_patterns model_file_patterns
      code_file_patterns doc_file_patterns
  Readable-content_lines w =
      stamp
      ⊕ field One.name "Model name" refl
      ⊕ (field One.arch "Model architecture (Generated from transformers_version in config.json)"
            refl
          ⊕ field One.family "Model family (Generated from model_type in config.json)" refl
          ⊕ field One.format "Model format" refl
          ⊕ field One.paramsize "Model paramsize" refl
          ⊕ field One.precision "Model precision (Generated from torch_dtype in config.json)" refl
          ⊕ field One.quantization "Model quantization" refl
          ⊕ files Many.config "Config files (Generated from the files in the workspace directory)"
              config_file_patterns refl refl (λ e. cc e)
          ⊕ files Many.code "Code files (Generated from the files in the workspace directory)"
              code_file_patterns refl refl (λ e. cc e)
          ⊕ files Many.model "Model files (Generated from the files in the workspace directory)"
              model_file_patterns refl refl (λ e. cc e)
          ⊕ files Many.doc
              "Documentation files (Generated from the files in the workspace directory)"
              doc_file_patterns refl refl (λ e. cc e))
    where
      stamp : Readable ((codes "# " ++ (codes "Generated at " ++ now), none) ∷ [])
      stamp = record {
        rows = (ReadsAs-comment (codes "Generated at " ++ now) w.stamp.0 w.stamp.1, tt);
      }

      field :
          (o : One) (comment : String)
          → is_comment_text (codes comment) ≡ true
          → Readable (field_lines (codes comment) (one o) (get_one mf o))
      field o comment c = record {
        rows =
            AllRead-field_lines (codes comment) (one o) (get_one mf o)
              (IsComment-of_test (codes comment) c) (w.ones o).0 (w.ones o).1;
      }

      files :
          (m : Many) (comment : String) (patterns : List Text)
          → is_comment_text (codes comment) ≡ true
          → is_comment_text (codes "Supported file types: " ++ join patterns) ≡ true
          → m ≢ Many.dataset
          → Readable (multi_lines (codes comment) (many m) (h.values (get_many mf m)) patterns)
      files m comment patterns c t ne = record {
        rows =
            AllRead-multi_lines (codes comment) (many m) (h.values (get_many mf m)) patterns
              (IsComment-of_test (codes comment) c)
              (IsComment-of_test (codes "Supported file types: " ++ join patterns) t)
              (w.manys m ne);
      }

  -- The arguments of a command in the text.
  written : Field → List Text
  written (many Many.config) = sort_strings (h.values mf.config)
  written (many Many.model) = sort_strings (h.values mf.model)
  written (many Many.code) = sort_strings (h.values mf.code)
  written (many Many.dataset) = []
  written (many Many.doc) = sort_strings (h.values mf.doc)
  written (one o) = optional (get_one mf o)

  list_args-content_lines : (f : Field) → list_args f content_lines ≡ written f
  unfolding content_lines written
  list_args-content_lines (many Many.config) =
      simp block_args (unfold text_eq list_args in simp append-nil)
  list_args-content_lines (many Many.doc) = simp block_args (unfold text_eq list_args in refl)
  list_args-content_lines (many Many.dataset) = simp block_args (unfold text_eq list_args in refl)
  list_args-content_lines (one One.name) =
      simp block_args (unfold text_eq list_args in simp append-nil)
  list_args-content_lines _ = simp block_args (unfold text_eq list_args in simp append-nil)

optional-injective : (v w : Text) → optional v ≡ optional w → v ≡ w
optional-injective v w h = ground arith

length-optional-le_one : (v : Text) → length (optional v) ≤ 1
length-optional-le_one v = ground arith

module _ {h : HashSet} (now : Text) (mf : Modelfile h) (root : Node)
    (args : (f : Field) → args_of f (get_children root) ≡ list_args f (content_lines now mf)) where
  args_of-written : (f : Field) → args_of f (get_children root) ≡ written now mf f
  args_of-written f = args f ∙ list_args-content_lines now mf f

  not-IsRepeated : (e : FileError) → ¬ IsRepeated e (get_children root)
  unfolding written
  not-IsRepeated e (o, l, same, twice) = omega (
    arith,
    length-optional-le_one (get_one mf o),
    subst (λ xs. 2 ≤ length xs) (args_of-written (one o)) twice,
  )

  SameFields-Describes : (mf' : Modelfile h) → Describes mf' (get_children root) → SameFields mf' mf
  unfolding written
  SameFields-Describes mf' d = record {
    ones = λ o. optional-injective _ _ (sym (d.one_args o) ∙ args_of-written (one o));
    manys = λ m ne x. many_same m ne x;
    no_dataset = λ x. d.many_args Many.dataset x ∙ ap (mem x) (args_of-written (many Many.dataset));
  }
    where
      many_same :
          (m : Many)
          → m ≢ Many.dataset
          → (x : Text) → mem x (h.values (get_many mf' m)) ≡ mem x (h.values (get_many mf m))
      many_same Many.dataset ne x = absurd (ne refl)
      many_same Many.config ne x =
          d.many_args Many.config x
          ∙ ap (mem x) (args_of-written (many Many.config))
          ∙ mem-sort_strings x (h.values mf.config)
      many_same Many.model ne x =
          d.many_args Many.model x
          ∙ ap (mem x) (args_of-written (many Many.model))
          ∙ mem-sort_strings x (h.values mf.model)
      many_same Many.code ne x =
          d.many_args Many.code x
          ∙ ap (mem x) (args_of-written (many Many.code))
          ∙ mem-sort_strings x (h.values mf.code)
      many_same Many.doc ne x =
          d.many_args Many.doc x
          ∙ ap (mem x) (args_of-written (many Many.doc))
          ∙ mem-sort_strings x (h.values mf.doc)

  SameFields-Outcome :
      (r : Result FileError (Modelfile h))
      → Outcome (get_children root) r
      → (mf' : Modelfile h) × (r ≡ ok mf') × SameFields mf' mf
  SameFields-Outcome (ok mf') d = (mf', refl, SameFields-Describes mf' d)
  SameFields-Outcome (err e) t = absurd (not-IsRepeated e t)

-- What `Content` writes of a writable Modelfile is read by `NewModelfile` with no error, and every
-- single value and the members of the config, model, code and doc sets come back as they were; the
-- dataset set comes back empty. Writable means that each single value holds no white space, quote
-- or backslash, that each member of the four sets is printable, and that no line passes the
-- scanner's buffer.
pub new_modelfile-content :
    (h : HashSet) (now : Text) (mf : Modelfile h)
    → IsWritable now mf
    → (mf' : Modelfile h) × (new_modelfile h (some (content now mf)) ≡ ok mf') × SameFields mf' mf
new_modelfile-content h now mf w =
    let (root, parsed, args) =
      parse-unlines (content_lines now mf) (Readable-content_lines now mf w).rows in
    SameFields-Outcome now mf root args (new_modelfile h (some (content now mf)))
      (new_modelfile-Outcome h (content now mf) (ap parse (content_lem now mf) ∙ parsed))
