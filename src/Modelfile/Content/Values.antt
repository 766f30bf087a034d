-- ===== src/Modelfile/Content/Values.antt =====
-- The values that `writeField` and `writeMultiField` print, read back by `parseArgs`.
use modctl.Prelude.{
  all-append, append_assoc, inr, ◌∙◌, &&-eq-true, inl, Bool-cases, append-nil, ℕ, Text, List, [],
  ◌∷◌, ◌++◌, true, false, not, Bool, ◌&&◌, ◌==◌, all, some, ◌≡◌, ◌≢◌, refl, ap, arith,
}
use modctl.Modelfile.Args.{step, run_args, finish, parse_args}
use modctl.Modelfile.Args.Quoting.{outside, quote, escape_all, finish-quote}
use modctl.Modelfile.Content.{has_blank, escape_quotes, quote_if_needed}
use modctl.Modelfile.Content.Lines.{NoNewline}
use modctl.Modelfile.Content.Readable.{IsArgument, trim_right-append, drop_cr-append}
use modctl.Modelfile.Lexical.{is_space, trim_left, trim_right, drop_cr}

-- Neither white space nor a quote nor a backslash.
unfoldable pub is_plain : ℕ → Bool
is_plain c = not (is_space c) && not (c == b'"') && not (c == b'\\')

abbrev pub IsPlain : Text → Type 0
IsPlain v = all is_plain v ≡ true

abbrev pub NoBackslash : Text → Type 0
NoBackslash v = all (λ c. not (c == b'\\')) v ≡ true

plain_step :
    (args : List Text) (cur : Text) (had : Bool) (c : ℕ)
    → is_plain c ≡ true
    → step (outside args cur had) c ≡ outside args (cur ++ c ∷ []) had
unfolding step is_plain is_space
plain_step args cur had c h = ground arith

pub run_args-plain :
    (args : List Text) (cur : Text) (had : Bool) (v : Text)
    → IsPlain v
    → run_args (outside args cur had) v ≡ outside args (cur ++ v) had
unfolding run_args
run_args-plain args cur had [] h = rw append-nil
run_args-plain args cur had (c ∷ v) h =
    ap (λ s. run_args s v)
      (plain_step args cur had c (&&-eq-true (is_plain c) (all is_plain v) h).0)
    ∙ run_args-plain args (cur ++ c ∷ []) had v (&&-eq-true (is_plain c) (all is_plain v) h).1
    ∙ ap (λ s. outside args s had) (append_assoc cur (c ∷ []) v)

parse_args-plain : (v : Text) → v ≢ [] → IsPlain v → parse_args v ≡ some (v ∷ [])
unfolding parse_args
parse_args-plain [] ne h = absurd (ne refl)
parse_args-plain (c ∷ v) ne h = rw (run_args-plain [] [] false (c ∷ v) h) (unfold finish in refl)

trim_left-plain : (v : Text) → IsPlain v → trim_left v ≡ v
unfolding trim_left is_plain
trim_left-plain [] h = refl
trim_left-plain (c ∷ v) h = ground arith

pub trim_right-plain : (v : Text) → IsPlain v → trim_right v ≡ v
unfolding trim_right is_plain
trim_right-plain [] h = refl
trim_right-plain (c ∷ []) h = ground arith
trim_right-plain (c ∷ d ∷ v) h = ground (arith, trim_right-plain (d ∷ v))

plain_not_cr : (c : ℕ) → is_plain c ≡ true → (c == b'\r') ≡ false
unfolding is_plain is_space
plain_not_cr c h = ground arith

plain_not_newline : (c : ℕ) → is_plain c ≡ true → (c == b'\n') ≡ false
unfolding is_plain is_space
plain_not_newline c h = ground arith

pub drop_cr-plain : (v : Text) → IsPlain v → drop_cr v ≡ v
unfolding drop_cr
drop_cr-plain [] h = refl
drop_cr-plain (c ∷ []) h = rw (plain_not_cr c (&&-eq-true (is_plain c) true h).0) refl
drop_cr-plain (c ∷ d ∷ v) h =
    ap (λ s. c ∷ s) (drop_cr-plain (d ∷ v) (&&-eq-true (is_plain c) (all is_plain (d ∷ v)) h).1)

pub NoNewline-plain : (v : Text) → IsPlain v → NoNewline v
NoNewline-plain [] h = refl
NoNewline-plain (c ∷ v) h =
    let (p, ps) = &&-eq-true (is_plain c) (all is_plain v) h in
    rw (plain_not_newline c p) (NoNewline-plain v ps)

-- A plain value is read as it is written.
pub IsArgument-plain : (v : Text) → v ≢ [] → IsPlain v → IsArgument v v
IsArgument-plain v ne h = record {
  parsed = parse_args-plain v ne h;
  value_ne_nil = ne;
  trimmed = record {
    ne_nil = ne;
    left = trim_left-plain v h;
    right = trim_right-plain v h;
    cr = drop_cr-plain v h;
    one_line = NoNewline-plain v h;
  };
}

escape_quotes-eq-escape_all : (v : Text) → NoBackslash v → escape_quotes v ≡ escape_all v
unfolding escape_quotes escape_all
escape_quotes-eq-escape_all [] h = refl
escape_quotes-eq-escape_all (c ∷ v) h = ground (arith, escape_quotes-eq-escape_all v)

NoNewline-escape_all : (v : Text) → NoNewline v → NoNewline (escape_all v)
unfolding escape_all
NoNewline-escape_all [] h = refl
NoNewline-escape_all (c ∷ v) h = ground (arith, NoNewline-escape_all v)

-- A value in quotes is read without them.
IsArgument-quote : (v : Text) → v ≢ [] → NoNewline v → IsArgument (quote v) v
IsArgument-quote v ne h = record {
  parsed = unfold parse_args in finish-quote [] v;
  value_ne_nil = ne;
  trimmed = record {
    ne_nil = unfold quote in λ e. cc e;
    left = unfold quote trim_left is_space in refl;
    right =
        unfold quote in
        trim_right-append (b'"' ∷ escape_all v) (b'"' ∷ []) (λ e. cc e)
          (unfold trim_right is_space in refl);
    cr =
        unfold quote in
        drop_cr-append (b'"' ∷ escape_all v) (b'"' ∷ []) (λ e. cc e)
        ∙ ap (λ s. (b'"' ∷ escape_all v) ++ s) (unfold drop_cr in refl);
    one_line = unfold quote in rw all-append (rw (NoNewline-escape_all v h) refl);
  };
}

-- A value that `quoteIfNeeded` prints so that `parseArgs` reads it back.
pub record IsPrintable (v : Text) : Type 0 where
  pub ne_nil : v ≢ []
  pub no_backslash : NoBackslash v
  pub one_line : NoNewline v
  pub plain : has_blank v ≡ false → IsPlain v

-- A value that is not empty and holds no backslash and no newline is, as `quoteIfNeeded` prints it,
-- read back by `parseArgs` as one argument, the value itself, provided that it holds a blank (and
-- so is put in quotes) or else no white space and no quote. Behind a command, the printed form
-- survives the trimming of the line.
pub IsArgument-quote_if_needed : (v : Text) → IsPrintable v → IsArgument (quote_if_needed v) v
unfolding quote_if_needed
IsArgument-quote_if_needed v p = elim (Bool-cases (has_blank v)) [
  | inl e ↦ rw e (
      rw (escape_quotes-eq-escape_all v p.no_backslash)
        (unfold quote in IsArgument-quote v p.ne_nil p.one_line))
  | inr e ↦ rw e (IsArgument-plain v p.ne_nil (p.plain e))
]
