-- ===== src/Modelfile/Args.antt =====
-- `parseArgs` of pkg/modelfile/parser/parser.go. The strings.Builder is the text written so far.
pub mod Quoting
use modctl.Prelude.{
  ℕ, Text, List, [], ◌∷◌, ◌++◌, Bool, true, false, not, ◌||◌, ◌==◌, if◌then◌else◌, Option, none,
  some,
}

pub record ArgState : Type 0 where
  pub args : List Text
  pub current : Text
  pub in_quotes : Bool
  pub escape : Bool
  pub had_quotes : Bool

abbrev pub start : ArgState
start = record { args = []; current = []; in_quotes = false; escape = false; had_quotes = false }

-- `current.Len() > 0`.
abbrev pub is_written : Text → Bool
is_written [] = false
is_written (c ∷ s) = true

abbrev pub write_rune : ArgState → ℕ → ArgState
write_rune s r = record s { current = s.current ++ r ∷ [] }

-- Outside quotes, a blank ends the current argument.
unfoldable pub end_argument : ArgState → ArgState
end_argument s =
    if is_written s.current || s.had_quotes
    then record s { args = s.args ++ s.current ∷ []; current = []; had_quotes = false }
    else s

-- One round of the loop: the `switch` on the rune.
unfoldable pub step : ArgState → ℕ → ArgState
unfolding end_argument
step s r =
    if s.escape
    then record (write_rune s r) { escape = false }
    else if r == b'\\'
    then record s { escape = true }
    else if r == b'"'
    then record s { in_quotes = not s.in_quotes; had_quotes = true }
    else if r == b' ' || r == b'\t'
    then (if s.in_quotes then write_rune s r else end_argument s)
    else write_rune s r

unfoldable pub run_args : ArgState → Text → ArgState
unfolding step
run_args s [] = s
run_args s (r ∷ rs) = run_args (step s r) rs

-- What follows the loop: `none` is the error of unclosed quotes.
unfoldable pub finish : ArgState → Option (List Text)
finish s =
    if s.in_quotes
    then none
    else some (if is_written s.current || s.had_quotes then s.args ++ s.current ∷ [] else s.args)

unfoldable pub parse_args : Text → Option (List Text)
unfolding run_args finish
parse_args s = finish (run_args start s)
