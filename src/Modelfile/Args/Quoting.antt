-- ===== src/Modelfile/Args/Quoting.antt =====
-- `parseArgs` against printers of arguments.
use modctl.Prelude.{
  ℕ, Text, List, [], ◌∷◌, ◌++◌, append_assoc, append-nil, Bool, true, false, ◌||◌, ◌==◌,
  if◌then◌else◌, some, ◌≡◌, refl, sym, ap, ◌∙◌, arith, Bool-cases, inl, inr,
}
use modctl.Modelfile.Args.{ArgState, step, run_args, finish, parse_args}

pub run_args-append : (s : ArgState) (t u : Text) → run_args s (t ++ u) ≡ run_args (run_args s t) u
unfolding run_args
run_args-append s [] u = refl
run_args-append s (r ∷ t) u = run_args-append (step s r) t u

-- Between two quotes, and outside them with no quote seen.
abbrev pub inside : List Text → Text → ArgState
inside args cur = record {
  args = args;
  current = cur;
  in_quotes = true;
  escape = false;
  had_quotes = true;
}

abbrev pub outside : List Text → Text → Bool → ArgState
outside args cur had = record {
  args = args;
  current = cur;
  in_quotes = false;
  escape = false;
  had_quotes = had;
}

-- A backslash before each quote and each backslash.
unfoldable pub escape_all : Text → Text
escape_all [] = []
escape_all (c ∷ s) =
    let rest = escape_all s in if c == b'\\' || c == b'"' then b'\\' ∷ c ∷ rest else c ∷ rest

step-inside :
    (args : List Text) (cur : Text) (c : ℕ)
    → (c == b'\\' || c == b'"') ≡ false
    → step (inside args cur) c ≡ inside args (cur ++ c ∷ [])
unfolding step
step-inside args cur c h = ground arith

pub step_escape :
    (args : List Text) (cur : Text) (c : ℕ) (s : Text)
    → run_args (inside args cur) (b'\\' ∷ c ∷ s) ≡ run_args (inside args (cur ++ c ∷ [])) s
unfolding run_args step
step_escape args cur c s = refl

run_args-escape_all :
    (args : List Text) (cur v : Text)
    → run_args (inside args cur) (escape_all v) ≡ inside args (cur ++ v)
unfolding run_args escape_all
run_args-escape_all args cur [] = rw append-nil
run_args-escape_all args cur (c ∷ v) = elim (Bool-cases (c == b'\\' || c == b'"')) [
  | inl h ↦ rw h (
      step_escape args cur c (escape_all v)
      ∙ run_args-escape_all args (cur ++ c ∷ []) v
      ∙ ap (inside args) (append_assoc cur (c ∷ []) v))
  | inr h ↦ rw h (
      ap (λ s. run_args s (escape_all v)) (step-inside args cur c h)
      ∙ run_args-escape_all args (cur ++ c ∷ []) v
      ∙ ap (inside args) (append_assoc cur (c ∷ []) v))
]

-- An argument in quotes.
unfoldable pub quote : Text → Text
quote v = b'"' ∷ escape_all v ++ b'"' ∷ []

pub open_quote :
    (args : List Text) (had : Bool) (s : Text)
    → run_args (outside args [] had) (b'"' ∷ s) ≡ run_args (inside args []) s
unfolding run_args step
open_quote args had s = refl

pub close_quote :
    (args : List Text) (v s : Text)
    → run_args (inside args v) (b'"' ∷ s) ≡ run_args (outside args v true) s
unfolding run_args step
close_quote args v s = refl

run_args-quote :
    (args : List Text) (had : Bool) (v s : Text)
    → run_args (outside args [] had) (quote v ++ s) ≡ run_args (outside args v true) s
unfolding quote
run_args-quote args had v s =
    open_quote args had ((escape_all v ++ b'"' ∷ []) ++ s)
    ∙ ap (run_args (inside args [])) (append_assoc (escape_all v) (b'"' ∷ []) s)
    ∙ run_args-append (inside args []) (escape_all v) (b'"' ∷ s)
    ∙ ap (λ q. run_args q (b'"' ∷ s)) (run_args-escape_all args [] v)
    ∙ close_quote args v s

-- A quoted argument is an argument even if it is empty.
end_quoted :
    (args : List Text) (v s : Text)
    → run_args (outside args v true) (b' ' ∷ s) ≡ run_args (outside (args ++ v ∷ []) [] false) s
unfolding run_args step
end_quoted args [] s = refl
end_quoted args (c ∷ v) s = refl

pub finish_quoted :
    (args : List Text) (v : Text) → finish (outside args v true) ≡ some (args ++ v ∷ [])
unfolding finish
finish_quoted args [] = refl
finish_quoted args (c ∷ v) = refl

pub finish-quote :
    (args : List Text) (v : Text)
    → finish (run_args (outside args [] false) (quote v)) ≡ some (args ++ v ∷ [])
finish-quote args v =
    ap (λ s. finish (run_args (outside args [] false) s)) (sym (append-nil (quote v)))
    ∙ ap finish (run_args-quote args false v [])
    ∙ (let e : run_args (outside args v true) [] ≡ outside args v true = unfold run_args in refl in
        ap finish e ∙ finish_quoted args v)

-- Arguments in quotes with a space between two of them.
unfoldable pub print_args : List Text → Text
print_args [] = []
print_args (v ∷ []) = quote v
print_args (v ∷ w ∷ vs) = quote v ++ b' ' ∷ print_args (w ∷ vs)

finish-print_args :
    (args : List Text) (v : Text) (vs : List Text)
    → finish (run_args (outside args [] false) (print_args (v ∷ vs))) ≡ some (args ++ v ∷ vs)
unfolding print_args
finish-print_args args v [] = finish-quote args v
finish-print_args args v (w ∷ vs) =
    ap finish (run_args-quote args false v (b' ' ∷ print_args (w ∷ vs)))
    ∙ ap finish (end_quoted args v (print_args (w ∷ vs)))
    ∙ finish-print_args (args ++ v ∷ []) w vs
    ∙ ap some (append_assoc args (v ∷ []) (w ∷ vs))

-- Any list of arguments at all, of any characters, is read back by `parseArgs` from its printed
-- form: each argument in quotes, with a backslash before each quote and backslash in it, and a
-- space between two arguments.
pub parse_args-print_args : (vs : List Text) → parse_args (print_args vs) ≡ some vs
unfolding parse_args
parse_args-print_args [] = unfold print_args run_args finish in refl
parse_args-print_args (v ∷ vs) = finish-print_args [] v vs
