-- ===== src/Modelfile/FileType/Infer.antt =====
-- The type of a file looks at its name in lower case only, and what is hidden is skipped.
use modctl.Prelude.{
  arith, inr, text_eq_sound, ◌<◌, inl, ◌*◌, ◌++◌, Bool-cases, ◌⊎◌, mem, ◌≢◌, text_eq, ◌↔◌, ◌∷◌, ◌≡◌,
  refl, false, [], true, codes, List, ℕ, Text,
}
use modctl.Modelfile.FileType.{
  model, size_should_be_weight_file, weight_file_size_threshold, Humanize, is_file_type,
  is_skippable, infer_file_type,
}
use modctl.Modelfile.Glob.{to_lower, lower_rune, base, glob}
use modctl.Modelfile.Glob.Suffix.{
  glob_extension, base-to_lower, IsLiteral, glob_hidden, NoSlash, to_lower_idem,
}
use modctl.Modelfile.Patterns.{
  config_file_patterns, model_file_patterns, code_file_patterns, doc_file_patterns, skip_patterns,
}

is_file_type-to_lower :
    (f : Text) (ps : List Text) → is_file_type (to_lower f) ps ≡ is_file_type f ps
unfolding is_file_type
is_file_type-to_lower f ps = rw (to_lower_idem f) refl

-- The type of a file does not depend on the case of the letters of its path.
pub infer_file_type-to_lower :
    (u : Humanize) (f : Text) (size : ℕ)
    → infer_file_type u (to_lower f) size ≡ infer_file_type u f size
unfolding infer_file_type
infer_file_type-to_lower u f size = rw (is_file_type-to_lower f config_file_patterns) (
    rw (is_file_type-to_lower f model_file_patterns) (
      rw (is_file_type-to_lower f code_file_patterns)
        (rw (is_file_type-to_lower f doc_file_patterns) refl)))

text_eq-of_ne : (s t : Text) → s ≢ t → text_eq s t ≡ false
text_eq-of_ne s t h = elim (Bool-cases (text_eq s t)) [
  | inl e ↦ absurd (h (text_eq_sound s t e))
  | inr e ↦ e
]

-- A file name without a slash is skipped if it starts with a dot, unless it is `.` or `..`.
pub is_skippable-hidden :
    (s : Text) → NoSlash s → s ≢ [] → s ≢ codes "." → is_skippable (b'.' ∷ s) ≡ true
unfolding is_skippable skip_patterns text_eq
is_skippable-hidden s n e1 e2 =
    rw (text_eq-of_ne s [] e1, text_eq-of_ne s (codes ".") e2, glob_hidden s n) refl

is_file_type-mem :
    (f p : Text) (ps : List Text)
    → mem p ps ≡ true
    → glob (to_lower p) (base (to_lower f)) ≡ true
    → is_file_type f ps ≡ true
unfolding is_file_type
is_file_type-mem f p [] m h = cc
is_file_type-mem f p (q ∷ ps) m h = elim (Bool-cases (text_eq p q)) [
  | inl e ↦ rw (← text_eq_sound p q e) (rw h refl)
  | inr e ↦ ground (arith, is_file_type-mem f p ps (ground arith) h)
]

to_lower-star : (e : Text) → to_lower e ≡ e → to_lower (b'*' ∷ e) ≡ b'*' ∷ e
unfolding to_lower lower_rune
to_lower-star e h = rw h refl

-- Where a table holds a star and an extension in lower case, with no further pattern characters,
-- every path whose last element ends in that extension in any case is of the table's type.
pub is_file_type-extension :
    (e front f : Text) (ps : List Text)
    → IsLiteral e
    → to_lower e ≡ e
    → mem (b'*' ∷ e) ps ≡ true
    → NoSlash front
    → to_lower (base f) ≡ front ++ e
    → is_file_type f ps ≡ true
is_file_type-extension e front f ps l low m n ends = is_file_type-mem f (b'*' ∷ e) ps m (
    rw (to_lower-star e low)
      (rw (base-to_lower f) ((glob_extension e (to_lower (base f)) l).1 (front, n, ends))))

-- A file is a model file if and only if it is no config file and either has a model pattern, or has
-- no pattern at all and more bytes than the threshold.
pub infer_file_type_model :
    (u : Humanize) (f : Text) (size : ℕ)
    → (infer_file_type u f size ≡ model)
      ↔ (is_file_type f config_file_patterns ≡ false)
        × ((is_file_type f model_file_patterns ≡ true)
            ⊎ ((is_file_type f code_file_patterns ≡ false)
                × (is_file_type f doc_file_patterns ≡ false)
                × (128 * u.m_byte < size)))
unfolding infer_file_type size_should_be_weight_file weight_file_size_threshold
infer_file_type_model u f size = ground arith
