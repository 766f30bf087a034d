-- ===== src/Modelfile/Content/Unreadable.antt =====
-- What `Content` writes that `NewModelfile` does not read back.
use modctl.Prelude.{
  any-append, sym, append_assoc, inr, all-append, ◌∙◌, ap, inl, ||-eq-false, ◌||◌, &&-eq-true,
  Bool-cases, false, true, ◌&&◌, ◌==◌, arith, not, all, append-nil, ℕ, Text, List, [], ◌∷◌, ◌++◌,
  ◌≡◌, ◌≢◌, refl, some, Bool, any,
}
use modctl.Modelfile.Args.{ArgState, step, run_args, finish, parse_args}
use modctl.Modelfile.Args.Quoting.{
  finish_quoted, close_quote, step_escape, open_quote, inside, outside,
}
use modctl.Modelfile.Content.{escape_quotes, quote_if_needed, has_blank}
use modctl.Modelfile.Content.Readable.{append-ne_nil}

-- Neither a quote nor a backslash.
unfoldable pub is_ordinary : ℕ → Bool
is_ordinary c = not (c == b'"') && not (c == b'\\')

abbrev pub IsOrdinary : Text → Type 0
IsOrdinary v = all is_ordinary v ≡ true

abbrev is_blank : ℕ → Bool
is_blank c = c == b' ' || c == b'\t' || c == b'\n' || c == b'\r'

step-inside :
    (args : List Text) (cur : Text) (c : ℕ)
    → is_ordinary c ≡ true
    → step (inside args cur) c ≡ inside args (cur ++ c ∷ [])
unfolding step is_ordinary
step-inside args cur c h = ground arith

step-outside :
    (args : List Text) (cur : Text) (c : ℕ)
    → is_ordinary c ≡ true
    → is_blank c ≡ false
    → step (outside args cur false) c ≡ outside args (cur ++ c ∷ []) false
unfolding step is_ordinary
step-outside args cur c h b = ground arith

run_args-inside :
    (args : List Text) (cur v s : Text)
    → IsOrdinary v
    → run_args (inside args cur) (v ++ s) ≡ run_args (inside args (cur ++ v)) s
unfolding run_args
run_args-inside args cur [] s h = rw append-nil refl
run_args-inside args cur (c ∷ v) s h =
    let (o, os) = &&-eq-true (is_ordinary c) (all is_ordinary v) h in
    ap (λ q. run_args q (v ++ s)) (step-inside args cur c o)
    ∙ run_args-inside args (cur ++ c ∷ []) v s os
    ∙ ap (λ t. run_args (inside args t) s) (append_assoc cur (c ∷ []) v)

run_args-outside :
    (args : List Text) (cur v s : Text)
    → IsOrdinary v
    → any is_blank v ≡ false
    → run_args (outside args cur false) (v ++ s) ≡ run_args (outside args (cur ++ v) false) s
unfolding run_args
run_args-outside args cur [] s h b = rw append-nil refl
run_args-outside args cur (c ∷ v) s h b =
    let (o, os) = &&-eq-true (is_ordinary c) (all is_ordinary v) h in
    let (n, ns) = ||-eq-false (is_blank c) (any is_blank v) b in
    ap (λ q. run_args q (v ++ s)) (step-outside args cur c o n)
    ∙ run_args-outside args (cur ++ c ∷ []) v s os ns
    ∙ ap (λ t. run_args (outside args t false) s) (append_assoc cur (c ∷ []) v)

escape_quotes-ordinary : (v : Text) → all (λ c. not (c == b'"')) v ≡ true → escape_quotes v ≡ v
unfolding escape_quotes
escape_quotes-ordinary [] h = refl
escape_quotes-ordinary (c ∷ v) h = ground (arith, escape_quotes-ordinary v)

no_quote : (v : Text) → IsOrdinary v → all (λ c. not (c == b'"')) v ≡ true
unfolding is_ordinary
no_quote [] h = refl
no_quote (c ∷ v) h = ground (arith, no_quote v)

run_args-nil : (s : ArgState) → run_args s [] ≡ s
unfolding run_args
run_args-nil s = refl

step_escape_outside :
    (args : List Text) (cur : Text) (c : ℕ) (s : Text)
    → run_args (outside args cur false) (b'\\' ∷ c ∷ s)
      ≡ run_args (outside args (cur ++ c ∷ []) false) s
unfolding run_args step
step_escape_outside args cur c s = refl

finish_written : (v : Text) → v ≢ [] → finish (outside [] v false) ≡ some (v ∷ [])
unfolding finish
finish_written [] h = absurd (h refl)
finish_written (c ∷ v) h = refl

-- A text with one backslash, and what follows it.
module _ (p q : Text) (c : ℕ) (op : IsOrdinary p) (oc : IsOrdinary (c ∷ q)) where
  oq : IsOrdinary q
  oq = (&&-eq-true (is_ordinary c) (all is_ordinary q) oc).1

  quoted_backslash :
      finish (run_args (outside [] [] false) (b'"' ∷ (p ++ b'\\' ∷ c ∷ q) ++ b'"' ∷ []))
      ≡ some ((p ++ c ∷ q) ∷ [])
  quoted_backslash =
      ap finish (
        open_quote [] false ((p ++ b'\\' ∷ c ∷ q) ++ b'"' ∷ [])
        ∙ ap (run_args (inside [] [])) (append_assoc p (b'\\' ∷ c ∷ q) (b'"' ∷ []))
        ∙ run_args-inside [] [] p (b'\\' ∷ c ∷ q ++ b'"' ∷ []) op
        ∙ step_escape [] p c (q ++ b'"' ∷ [])
        ∙ run_args-inside [] (p ++ c ∷ []) q (b'"' ∷ []) oq
        ∙ close_quote [] ((p ++ c ∷ []) ++ q) []
        ∙ run_args-nil (outside [] ((p ++ c ∷ []) ++ q) true)
        ∙ ap (λ t. outside [] t true) (append_assoc p (c ∷ []) q))
      ∙ finish_quoted [] (p ++ c ∷ q)

  plain_backslash :
      any is_blank (p ++ b'\\' ∷ c ∷ q) ≡ false
      → finish (run_args (outside [] [] false) (p ++ b'\\' ∷ c ∷ q)) ≡ some ((p ++ c ∷ q) ∷ [])
  plain_backslash b =
      let (bp, bq) =
        ||-eq-false (any is_blank p) (any is_blank (b'\\' ∷ c ∷ q))
          (sym (any-append is_blank p (b'\\' ∷ c ∷ q)) ∙ b) in
      let rest = (||-eq-false (is_blank c) (any is_blank q) bq).1 in
      ap finish (
        run_args-outside [] [] p (b'\\' ∷ c ∷ q) op bp
        ∙ step_escape_outside [] p c q
        ∙ ap (run_args (outside [] (p ++ c ∷ []) false)) (sym (append-nil q))
        ∙ run_args-outside [] (p ++ c ∷ []) q [] oq rest
        ∙ run_args-nil (outside [] ((p ++ c ∷ []) ++ q) false)
        ∙ ap (λ t. outside [] t false) (append_assoc p (c ∷ []) q))
      ∙ finish_written (p ++ c ∷ q) (append-ne_nil p (c ∷ q) (λ e. cc e))

-- A value with a backslash in it comes back without the backslash, whether `quoteIfNeeded` puts it
-- in quotes or not: here the value holds no quote and no second backslash, and the backslash is
-- not its last character.
pub parse_args_loses_backslash :
    (p q : Text) (c : ℕ)
    → IsOrdinary p
    → IsOrdinary (c ∷ q)
    → parse_args (quote_if_needed (p ++ b'\\' ∷ c ∷ q)) ≡ some ((p ++ c ∷ q) ∷ [])
unfolding parse_args quote_if_needed has_blank
parse_args_loses_backslash p q c op oc = elim (Bool-cases (any is_blank (p ++ b'\\' ∷ c ∷ q))) [
  | inl e ↦ rw e (
      rw
        (escape_quotes-ordinary (p ++ b'\\' ∷ c ∷ q)
          (rw all-append (rw (no_quote p op) (no_quote (c ∷ q) oc))))
        (quoted_backslash p q c op oc))
  | inr e ↦ rw e (plain_backslash p q c op oc e)
]
