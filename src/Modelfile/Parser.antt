-- ===== src/Modelfile/Parser.antt =====
-- pkg/modelfile/parser/parser.go and args_parser.go: from lines to the syntax tree.
pub mod Shape
use modctl.Prelude.{
  ℕ, ◌+◌, Text, text_eq, has_prefix, List, [], ◌∷◌, any, Bool, true, false, ◌==◌, if◌then◌else◌,
  Option, none, some, Result, ok, err, ◌>>=◌,
}
use modctl.Modelfile.Args.{parse_args}
use modctl.Modelfile.Ast.{Node, new_root_node, new_node, add_child, add_next}
use modctl.Modelfile.Lexical.{trim_space, to_upper, scan_lines}
use modctl.Modelfile.Command

-- The errors of one command line, `fmt.Errorf`'s texts left out.
pub data LineError : Type 0 where
  invalid_command_line invalid_args_in_line invalid_args empty_args : LineError
  invalid_command : Text → LineError

-- The errors of `Parse`, with the line that they name.
pub data ParseError : Type 0 where
  command_line_error : ℕ → LineError → ParseError
  line_error : ℕ → Text → ParseError

unfoldable pub is_comment : Text → Bool
is_comment line = has_prefix line (b'#' ∷ [])

unfoldable pub is_command : Text → Bool
is_command line = any (has_prefix (to_upper line)) Command.commands

unfoldable pub is_empty_continuation_line : Text → Bool
is_empty_continuation_line [] = true
is_empty_continuation_line (c ∷ s) = false

-- `line[:i]` and `line[i+1:]` at the first space, `strings.Index(line, " ")`.
unfoldable pub cut_space : Text → Option (Text × Text)
cut_space [] = none
cut_space (c ∷ s) =
    let rest = cut_space s in
    if c == b' '
    then some ([], s)
    else elim rest [ none ↦ none | some (before, after) ↦ some (c ∷ before, after) ]

args_result : Text → Option (List Text) → Result LineError (Text × List Text)
args_result command none = err invalid_args_in_line
args_result command (some args) = ok (command, args)

-- The arguments, once the line is cut in two.
unfoldable pub split_rest : Text → Text → Result LineError (Text × List Text)
unfolding args_result is_empty_continuation_line
split_rest command args_str =
    if is_empty_continuation_line args_str
    then err invalid_command_line
    else args_result command (parse_args args_str)

unfoldable pub split_at : Option (Text × Text) → Result LineError (Text × List Text)
unfolding split_rest
split_at none = err invalid_command_line
split_at (some (before, after)) = split_rest (to_upper (trim_space before)) (trim_space after)

unfoldable pub split_command : Text → Result LineError (Text × List Text)
unfolding split_at
split_command line = split_at (cut_space line)

unfoldable pub parse_string_args : List Text → ℕ → ℕ → Result LineError Node
parse_string_args [] start end = err invalid_args
parse_string_args ([] ∷ []) start end = err empty_args
parse_string_args ((c ∷ s) ∷ []) start end = ok (new_node (c ∷ s) start end)
parse_string_args (a ∷ b ∷ rest) start end = err invalid_args

-- The `switch` on the command: its twelve cases have one body.
unfoldable pub command_node : Text → List Text → ℕ → ℕ → Result LineError Node
command_node cmd args start end =
    if any (text_eq cmd) Command.commands
    then (do
      args_node ← parse_string_args args start end
      ok (add_next (new_node cmd start end) args_node))
    else err (invalid_command cmd)

unfoldable pub parse_command_line : Text → ℕ → ℕ → Result LineError Node
unfolding command_node
parse_command_line line start end = do
  (cmd, args) ← split_command line
  command_node cmd args start end

unfoldable pub located : ℕ → Result LineError Node → Result ParseError (Option Node)
located n (ok child) = ok (some child)
located n (err e) = err (command_line_error n e)

-- One round of the loop of `Parse`: the child to add, if the line is a command.
unfoldable pub parse_line : ℕ → Text → Result ParseError (Option Node)
unfolding located is_comment is_command is_empty_continuation_line
parse_line n line =
    let trimmed = trim_space line in
    if is_empty_continuation_line trimmed
    then ok none
    else if is_comment trimmed
    then ok none
    else if is_command trimmed
    then located n (parse_command_line trimmed n n)
    else err (line_error n line)

unfoldable pub add_child? : Node → Option Node → Node
add_child? root none = root
add_child? root (some child) = add_child root child

unfoldable pub parse_lines : ℕ → List Text → Node → Result ParseError Node
unfolding add_child?
parse_lines n [] root = ok root
parse_lines n (l ∷ ls) root = do
  child ← parse_line n l
  parse_lines (n + 1) ls (add_child? root child)

-- `Parse`: the scanner's own error is not looked at.
unfoldable pub parse : Text → Result ParseError Node
unfolding parse_lines
parse input = parse_lines 0 (scan_lines input) new_root_node
