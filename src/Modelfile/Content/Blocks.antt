-- ===== src/Modelfile/Content/Blocks.antt =====
-- What `writeField`, `writeMultiField` and `Content` write, as lines.
use modctl.Prelude.{
  append-nil, text_eq, if◌then◌else◌, All, byte_length, ◌+◌, ◌<◌, Text, codes, List, [], ◌∷◌, ◌++◌,
  none, some, ◌≡◌, refl, arith, append_assoc,
}
use modctl.Modelfile.Content.{
  is_nil, quote_if_needed, write_field, write_values, write_multi_field, sort_strings, join,
}
use modctl.Modelfile.Content.Lines.{Line, unlines, AllRead, NoNewline, list_args}
use modctl.Modelfile.Content.Readable.{ReadsAs-blank, ReadsAs-comment, ReadsAs-command}
use modctl.Modelfile.Content.Sorting.{All-sort_strings}
use modctl.Modelfile.Content.Values.{
  IsPlain, IsPrintable, IsArgument-plain, IsArgument-quote_if_needed,
}
use modctl.Modelfile.File.Fields.{optional}
use modctl.Modelfile.Lexical.{max_token_size}
use modctl.Modelfile.Record.{Field, command_of}

-- `command_of f` and a printed value fit the scanner's buffer.
abbrev pub Fits : Field → Text → Type 0
Fits f q = byte_length (command_of f ++ b' ' ∷ q) < max_token_size

-- A comment that stands on one line and fits.
abbrev pub IsComment : Text → Type 0
IsComment t = NoNewline t × (byte_length t + 2 < max_token_size)

unfoldable pub field_lines : Text → Field → Text → List Line
field_lines comment f v =
    if is_nil v
    then []
    else ([], none) ∷ (codes "# " ++ comment, none) ∷ (command_of f ++ b' ' ∷ v, some (f, v)) ∷ []

pub write_field_lem :
    (comment : Text) (f : Field) (v : Text)
    → write_field comment (command_of f) v ≡ unlines (field_lines comment f v)
unfolding write_field field_lines unlines
write_field_lem comment f [] = refl
write_field_lem comment f (c ∷ v) = simp append_assoc

pub AllRead-field_lines :
    (comment : Text) (f : Field) (v : Text)
    → IsComment comment
    → IsPlain v
    → Fits f v
    → AllRead (field_lines comment f v)
unfolding field_lines
AllRead-field_lines comment f [] (line, short) plain fits = tt
AllRead-field_lines comment f (c ∷ v) (line, short) plain fits = (
  ReadsAs-blank,
  (
    ReadsAs-comment comment line short,
    (ReadsAs-command f (c ∷ v) (c ∷ v) (IsArgument-plain (c ∷ v) (λ e. cc e) plain) fits, tt),
  ),
)

pub list_args-field_lines :
    (g f : Field) (comment v : Text)
    → list_args g (field_lines comment f v)
      ≡ (if text_eq (command_of f) (command_of g) then optional v else [])
unfolding field_lines list_args
list_args-field_lines g f comment [] = ground arith
list_args-field_lines g f comment (c ∷ v) = append-nil _

unfoldable pub value_lines : Field → List Text → List Line
value_lines f [] = []
value_lines f (v ∷ vs) = (command_of f ++ b' ' ∷ quote_if_needed v, some (f, v)) ∷ value_lines f vs

write_values_lem :
    (f : Field) (vs : List Text) → write_values (command_of f) vs ≡ unlines (value_lines f vs)
unfolding write_values value_lines unlines
write_values_lem f [] = refl
write_values_lem f (v ∷ vs) = simp append_assoc (rw (write_values_lem f vs) refl)

abbrev pub IsPrinted : Field → Text → Type 0
IsPrinted f v = IsPrintable v × Fits f (quote_if_needed v)

AllRead-value_lines :
    (f : Field) (vs : List Text) → All (IsPrinted f) vs → AllRead (value_lines f vs)
unfolding value_lines
AllRead-value_lines f [] h = tt
AllRead-value_lines f (v ∷ vs) ((p, fits), h) = (
  ReadsAs-command f (quote_if_needed v) v (IsArgument-quote_if_needed v p) fits,
  AllRead-value_lines f vs h,
)

list_args-value_lines :
    (g f : Field) (vs : List Text)
    → list_args g (value_lines f vs) ≡ (if text_eq (command_of f) (command_of g) then vs else [])
unfolding value_lines list_args
list_args-value_lines g f [] = ground arith
list_args-value_lines g f (v ∷ vs) = ground (arith, list_args-value_lines g f vs)

unfoldable pub multi_lines : Text → Field → List Text → List Text → List Line
multi_lines comment f values patterns =
    if is_nil values
    then []
    else ([], none)
      ∷ (codes "# " ++ comment, none)
      ∷ (codes "# " ++ (codes "Supported file types: " ++ join patterns), none)
      ∷ value_lines f (sort_strings values)

pub write_multi_field_lem :
    (comment : Text) (f : Field) (values patterns : List Text)
    → write_multi_field comment (command_of f) values patterns
      ≡ unlines (multi_lines comment f values patterns)
unfolding write_multi_field multi_lines unlines
write_multi_field_lem comment f [] patterns = refl
write_multi_field_lem comment f (v ∷ vs) patterns =
    simp append_assoc (rw (write_values_lem f (sort_strings (v ∷ vs))) refl)

pub AllRead-multi_lines :
    (comment : Text) (f : Field) (values patterns : List Text)
    → IsComment comment
    → IsComment (codes "Supported file types: " ++ join patterns)
    → All (IsPrinted f) values
    → AllRead (multi_lines comment f values patterns)
unfolding multi_lines
AllRead-multi_lines comment f [] patterns c types h = tt
AllRead-multi_lines comment f (v ∷ vs) patterns (line, short) (types_line, types_short) h = (
  ReadsAs-blank,
  (
    ReadsAs-comment comment line short,
    (
      ReadsAs-comment (codes "Supported file types: " ++ join patterns) types_line types_short,
      AllRead-value_lines f (sort_strings (v ∷ vs)) (All-sort_strings (IsPrinted f) (v ∷ vs) h),
    ),
  ),
)

pub list_args-multi_lines :
    (g f : Field) (comment : Text) (values patterns : List Text)
    → list_args g (multi_lines comment f values patterns)
      ≡ (if text_eq (command_of f) (command_of g) then sort_strings values else [])
unfolding multi_lines list_args
list_args-multi_lines g f comment [] patterns = unfold sort_strings in ground arith
list_args-multi_lines g f comment (v ∷ vs) patterns =
    list_args-value_lines g f (sort_strings (v ∷ vs))
