-- ===== src/Modelfile/PathFilter/Matching.antt =====
-- What the filter answers.
use modctl.Prelude.{
  if◌then◌else◌, ◌≡◌, refl, ◌⊎◌, inl, inr, Bool, true, false, Option, none, some, List, [], ◌∷◌,
  arith, Bool-cases, Option-cases, any, all, Text, ok, err,
}
use modctl.Modelfile.PathFilter.{
  FilterError, PathFilter, invalid_exclude_pattern, invalid_include_pattern, trim_separators,
  match_patterns, match_exclude, match_include, new_path_filter, clean,
}

abbrev pub is_match : Option Bool → Bool
is_match none = false
is_match (some b) = b

abbrev pub is_valid : Option Bool → Bool
is_valid none = false
is_valid (some b) = true

abbrev pub trimmed : List Text → List Text
trimmed [] = []
trimmed (p ∷ ps) = trim_separators p ∷ trimmed ps

module _ (path_match : Text → Text → Option Bool) where
  -- The patterns before the first one that `PathMatch` refuses for the path.
  abbrev pub valid_before : Text → List Text → List Text
  valid_before path [] = []
  valid_before path (p ∷ ps) = if is_valid (path_match p path) then p ∷ valid_before path ps else []

  match_patterns-valid_before :
      (ps : List Text) (path : Text)
      → match_patterns path_match ps path
        ≡ any (λ p. is_match (path_match p path)) (valid_before path ps)
  unfolding match_patterns
  match_patterns-valid_before [] path = refl
  match_patterns-valid_before (p ∷ ps) path = ground (arith, match_patterns-valid_before ps path)

  clean-valid :
      (e : Text → FilterError) (ps : List Text)
      → all (λ p. is_valid (path_match p [])) ps ≡ true
      → clean path_match e ps ≡ ok (trimmed ps)
  unfolding clean
  clean-valid e [] h = refl
  clean-valid e (p ∷ ps) h = ground (arith, clean-valid e ps)

  clean-invalid :
      (e : Text → FilterError) (ps : List Text)
      → all (λ p. is_valid (path_match p [])) ps ≡ false
      → (p : Text) × (path_match p [] ≡ none) × (clean path_match e ps ≡ err (e p))
  unfolding clean
  clean-invalid e [] h = cc
  clean-invalid e (p ∷ ps) h = elim (Option-cases (path_match p [])) [
    | inl bad ↦ (p, bad, rw (bad, clean) refl)
    | inr (b, good) ↦
        let (q, bad, first) = clean-invalid e ps (ground arith) in
        (q, bad, rw (good, clean) (rw first refl))
  ]

  abbrev pub FilterOutcome : (exclude include : List Text) → Type 0
  FilterOutcome exclude include =
      ((p : Text) × (path_match p [] ≡ none)
        × ((new_path_filter path_match exclude include ≡ err (invalid_exclude_pattern p))
            ⊎ (new_path_filter path_match exclude include ≡ err (invalid_include_pattern p))))
      ⊎ ((pf : PathFilter) × (all (λ p. is_valid (path_match p [])) exclude ≡ true)
          × (all (λ p. is_valid (path_match p [])) include ≡ true)
          × (new_path_filter path_match exclude include ≡ ok pf)
          × ((path : Text)
              → (match_exclude path_match pf path
                  ≡ any (λ p. is_match (path_match p path)) (valid_before path (trimmed exclude)))
                × (match_include path_match pf path
                    ≡ any (λ p. is_match (path_match p path))
                        (valid_before path (trimmed include)))))

  -- `NewPathFilter` refuses a pattern that is malformed; where none is, `Match` is true exactly of the
  -- paths that one of the exclude patterns matches, the slashes at its end left out, if no pattern
  -- before it is refused for the path once its own slashes are left out; and `MatchInclude` is the
  -- same of the include patterns.
  pub new_path_filter-cases : (exclude include : List Text) → FilterOutcome exclude include
  unfolding new_path_filter match_exclude match_include
  new_path_filter-cases exclude include =
      elim (Bool-cases (all (λ p. is_valid (path_match p [])) exclude)) [
        | inr bad ↦
            let (p, invalid, first) = clean-invalid invalid_exclude_pattern exclude bad in
            inl (p, invalid, inl (rw first refl))
        | inl good ↦ elim (Bool-cases (all (λ p. is_valid (path_match p [])) include)) [
          | inr bad ↦
              let (p, invalid, first) = clean-invalid invalid_include_pattern include bad in
              inl (
                p,
                invalid,
                inr (rw (clean-valid invalid_exclude_pattern exclude good) (rw first refl)),
              )
          | inl fine ↦ inr (
            record { exclude_patterns = trimmed exclude; include_patterns = trimmed include },
            good,
            fine,
            rw (clean-valid invalid_exclude_pattern exclude good)
                (rw (clean-valid invalid_include_pattern include fine) refl),
            λ path. (
              match_patterns-valid_before (trimmed exclude) path,
              match_patterns-valid_before (trimmed include) path,
            ),
          )
        ]
      ]
