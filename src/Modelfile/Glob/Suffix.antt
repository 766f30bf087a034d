-- ===== src/Modelfile/Glob/Suffix.antt =====
-- Facts of the patterns and paths: a star and an extension, upper case, and base names.
use modctl.Prelude.{
  &&-eq-true, append-nil, codes, if◌then◌else◌, inr, inl, Bool-cases, ◌∙◌, ap, sym, text_eq_refl,
  text_eq_sound, ℕ, Text, text_eq, List, [], ◌∷◌, ◌++◌, Bool, true, false, not, ◌&&◌, ◌==◌, all,
  ◌≡◌, ◌↔◌, refl, none, arith,
}
use modctl.Modelfile.Glob.{
  lower_rune, to_lower, Token, rune, tokens, match_tokens, after_star, one_rune, takes, glob,
  all_slashes, last_element, base,
}

-- No code point that a pattern reads as something else than itself.
abbrev pub IsLiteral : Text → Type 0
IsLiteral s = all (λ c. not (c == b'*') && not (c == b'?') && not (c == b'[')) s ≡ true

abbrev pub NoSlash : Text → Type 0
NoSlash s = all (λ c. not (c == b'/')) s ≡ true

runes : Text → List Token
runes [] = []
runes (c ∷ s) = rune c ∷ runes s

tokens-literal : (s : Text) → IsLiteral s → tokens none s ≡ runes s
unfolding tokens runes
tokens-literal [] h = refl
tokens-literal (c ∷ s) h = ground (arith, tokens-literal s)

match_runes : (e s : Text) → match_tokens (runes e) s ≡ text_eq e s
unfolding match_tokens runes one_rune takes text_eq
match_runes [] [] = refl
match_runes [] (c ∷ s) = refl
match_runes (d ∷ e) [] = refl
match_runes (d ∷ e) (c ∷ s) = rw (match_runes e s) refl

lower_rune_idem : (c : ℕ) → lower_rune (lower_rune c) ≡ lower_rune c
unfolding lower_rune
lower_rune_idem c = ground arith

slash-lower_rune : (c : ℕ) → (lower_rune c == b'/') ≡ (c == b'/')
unfolding lower_rune
slash-lower_rune c = ground arith

pub to_lower_idem : (s : Text) → to_lower (to_lower s) ≡ to_lower s
unfolding to_lower
to_lower_idem [] = refl
to_lower_idem (c ∷ s) = rw (to_lower_idem s) (rw (lower_rune_idem c) refl)

to_lower-append : (s t : Text) → to_lower (s ++ t) ≡ to_lower s ++ to_lower t
unfolding to_lower
to_lower-append [] t = refl
to_lower-append (c ∷ s) t = ap (λ u. lower_rune c ∷ u) (to_lower-append s t)

all_slashes-to_lower : (s : Text) → all_slashes (to_lower s) ≡ all_slashes s
unfolding to_lower
all_slashes-to_lower [] = refl
all_slashes-to_lower (c ∷ s) = rw (all_slashes-to_lower s) (rw (slash-lower_rune c) refl)

last_element-to_lower :
    (r s : Text) → last_element (to_lower r) (to_lower s) ≡ to_lower (last_element r s)
unfolding last_element to_lower
last_element-to_lower r [] = refl
last_element-to_lower r (c ∷ s) =
    rw (slash-lower_rune c, all_slashes-to_lower s, last_element-to_lower [] s)
      (rw (sym (to_lower-append r (c ∷ [])))
        (rw (last_element-to_lower (r ++ c ∷ []) s) (ground arith)))

lower_slash : to_lower (b'/' ∷ []) ≡ b'/' ∷ []
unfolding to_lower lower_rune
lower_slash = refl

lower_dot : to_lower (b'.' ∷ []) ≡ b'.' ∷ []
unfolding to_lower lower_rune
lower_dot = refl

to_lower-if :
    (b : Bool) (s t : Text) → to_lower (if b then s else t) ≡ (if b then to_lower s else to_lower t)
to_lower-if true s t = refl
to_lower-if false s t = refl

pub base-to_lower : (s : Text) → base (to_lower s) ≡ to_lower (base s)
unfolding base to_lower
base-to_lower [] = sym lower_dot
base-to_lower (c ∷ s) =
    ap (λ b. if b then b'/' ∷ [] else last_element (to_lower []) (to_lower (c ∷ s)))
      (all_slashes-to_lower (c ∷ s))
    ∙ ap (λ t. if all_slashes (c ∷ s) then b'/' ∷ [] else t) (last_element-to_lower [] (c ∷ s))
    ∙ ap (λ t. if all_slashes (c ∷ s) then t else to_lower (last_element [] (c ∷ s)))
        (sym lower_slash)
    ∙ sym (to_lower-if (all_slashes (c ∷ s)) (b'/' ∷ []) (last_element [] (c ∷ s)))

after_star_sound :
    (e s : Text)
    → after_star (match_tokens (runes e)) s ≡ true
    → (front : Text) × NoSlash front × (s ≡ front ++ e)
unfolding after_star
after_star_sound e [] h = ([], refl, ground (arith, match_runes e [], text_eq_sound e []))
after_star_sound e (c ∷ s) h = elim (Bool-cases (match_tokens (runes e) (c ∷ s))) [
  | inl here ↦ ([], refl, ground (arith, match_runes e (c ∷ s), text_eq_sound e (c ∷ s)))
  | inr later ↦
      let (front, n, eq) = after_star_sound e s (ground arith) in (c ∷ front, ground arith, cc eq)
]

after_star_complete :
    (front e : Text) → NoSlash front → after_star (match_tokens (runes e)) (front ++ e) ≡ true
unfolding after_star text_eq
after_star_complete [] [] h = match_runes [] []
after_star_complete [] (c ∷ e) h = rw (match_runes (c ∷ e) (c ∷ e)) (rw (text_eq_refl (c ∷ e)) refl)
after_star_complete (c ∷ f) e h = ground (arith, after_star_complete f e)

-- A star and an extension match the names that end in the extension, of one path element.
pub glob_extension :
    (e s : Text)
    → IsLiteral e
    → (glob (b'*' ∷ e) s ≡ true) ↔ ((front : Text) × NoSlash front × (s ≡ front ++ e))
unfolding glob tokens match_tokens
glob_extension e s h = rw (tokens-literal e h) (
  after_star_sound e s,
  λ p.
      let (front, n, same) = p in
      ap (after_star (match_tokens (runes e))) same ∙ after_star_complete front e n,
)

NoSlash-to_lower : (s : Text) → NoSlash s → NoSlash (to_lower s)
unfolding to_lower
NoSlash-to_lower [] h = refl
NoSlash-to_lower (c ∷ s) h =
    let (here, rest) = &&-eq-true _ (all (λ c. not (c == b'/')) s) h in
    rw (slash-lower_rune c) (rw (here, NoSlash-to_lower s rest) refl)

after_star-all : (s : Text) → NoSlash s → after_star (match_tokens []) s ≡ true
unfolding runes
after_star-all s n =
    ap (after_star (match_tokens [])) (sym (append-nil s)) ∙ after_star_complete s [] n

-- The pattern of hidden files, in lower case, matches every name behind a dot.
pub glob_hidden : (s : Text) → NoSlash s → glob (to_lower (codes ".*")) (to_lower (b'.' ∷ s)) ≡ true
unfolding glob tokens match_tokens one_rune takes to_lower lower_rune
glob_hidden s n = after_star-all (to_lower s) (NoSlash-to_lower s n)
