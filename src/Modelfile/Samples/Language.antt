-- ===== src/Modelfile/Samples/Language.antt =====
-- Samples of the Modelfile language: pkg/modelfile/parser and the reading of pkg/modelfile/modelfile.go.
use modctl.Prelude.{
  ℕ, zero, suc, ◌≡◌, refl, some, List, [], ◌∷◌, ◌++◌, arith, length, All, Text, codes, text_eq,
  has_prefix, rune_bytes, byte_length, Result, ok, err,
}
use modctl.Modelfile.Args.{parse_args}
use modctl.Modelfile.Args.Quoting.{print_args, parse_args-print_args}
use modctl.Modelfile.Ast.{Node, get_children, new_root_node}
use modctl.Modelfile.Content.{quote_if_needed}
use modctl.Modelfile.Content.Lines.{NoNewline, raw_lines-line}
use modctl.Modelfile.Content.Unreadable.{is_ordinary, parse_args_loses_backslash}
use modctl.Modelfile.File.{new_modelfile}
use modctl.Modelfile.File.Describes.{Outcome, new_modelfile-Outcome}
use modctl.Modelfile.HashSet.{list_set}
use modctl.Modelfile.Lexical.{trim_space, is_space, to_upper, raw_lines, scan_lines, max_token_size}
use modctl.Modelfile.Parser.{
  parse, ParseError, parse_line, parse_command_line, split_command, cut_space, parse_string_args,
}
use modctl.Modelfile.Parser.Shape.{IsCommandNode, parse-IsCommandNode, parse-too_long}

abbrev two_args : List Text
two_args = codes "my model" ∷ codes "a\"b" ∷ []

parse_args-print_args_example : parse_args (print_args two_args) ≡ some two_args
parse_args-print_args_example = parse_args-print_args two_args

abbrev small_file : Text
small_file = codes "# A comment\n\nNAME llama\nCONFIG config.json\n"

abbrev root_of : Result ParseError Node → Node
root_of (ok root) = root
root_of (err e) = new_root_node

small_root : Node
small_root = root_of (parse small_file)

small_file-parses : parse small_file ≡ ok small_root
unfolding parse small_root scan_lines byte_length parse_line trim_space is_space has_prefix to_upper
    parse_command_line split_command cut_space parse_args text_eq parse_string_args
small_file-parses = refl

parse-IsCommandNode_example :
    All (IsCommandNode (length (scan_lines small_file))) (get_children small_root)
parse-IsCommandNode_example = parse-IsCommandNode small_file small_file-parses

new_modelfile-Outcome_example :
    Outcome (get_children small_root) (new_modelfile list_set (some small_file))
new_modelfile-Outcome_example = new_modelfile-Outcome list_set small_file small_file-parses

parse_args_loses_backslash_example :
    parse_args (quote_if_needed (codes "a" ++ b'\\' ∷ b'b' ∷ codes "c"))
    ≡ some ((codes "a" ++ b'b' ∷ codes "c") ∷ [])
unfolding is_ordinary
parse_args_loses_backslash_example =
    parse_args_loses_backslash (codes "a") (codes "c") b'b' refl refl

repeat : ℕ → ℕ → Text
repeat zero c = []
repeat (suc n) c = c ∷ repeat n c

byte_length-repeat : (n : ℕ) → byte_length (repeat n b'a') ≡ n
unfolding repeat byte_length rune_bytes
byte_length-repeat zero = refl
byte_length-repeat (suc n) = omega (arith, byte_length-repeat n)

NoNewline-repeat : (n : ℕ) → NoNewline (repeat n b'a')
unfolding repeat
NoNewline-repeat zero = refl
NoNewline-repeat (suc n) = NoNewline-repeat n

-- A line that is too long, with one more line or none.
abbrev long_line : Text
long_line = repeat max_token_size b'a'

raw_lines_empty : raw_lines [] ≡ []
unfolding raw_lines
raw_lines_empty = refl

parse-too_long_example : parse (long_line ++ codes "\nNAME x\n") ≡ parse []
parse-too_long_example =
    parse-too_long (long_line ++ codes "\nNAME x\n") [] [] (raw_lines (codes "NAME x\n")) long_line
      (raw_lines-line long_line (codes "NAME x\n") (NoNewline-repeat max_token_size))
      raw_lines_empty (omega (arith, byte_length-repeat max_token_size))
