-- ===== src/Modelfile/PathFilter.antt =====
-- pkg/modelfile/path_filter.go. `doublestar.PathMatch` is not part of this repository: it is a
-- parameter, whose `none` is an error. The separator is Linux's.
pub mod Matching
use modctl.Prelude.{
  Text, List, [], ◌∷◌, ◌++◌, Bool, true, false, ◌||◌, ◌==◌, has_prefix, if◌then◌else◌, Option, none,
  some, Result, ok, err, ◌>>=◌,
}

pub record PathFilter : Type 0 where
  pub exclude_patterns : List Text
  pub include_patterns : List Text

pub data FilterError : Type 0 where
  invalid_exclude_pattern invalid_include_pattern : Text → FilterError

-- `strings.TrimRight(p, "/")`.
unfoldable pub trim_separators : Text → Text
trim_separators [] = []
trim_separators (c ∷ s) =
    let rest = trim_separators s in
    if c == b'/' then (elim rest [ [] ↦ [] | d ∷ t ↦ c ∷ d ∷ t ]) else c ∷ rest

module _ (path_match : Text → Text → Option Bool) where
  -- One of the two loops of `NewPathFilter`.
  unfoldable pub clean : (Text → FilterError) → List Text → Result FilterError (List Text)
  clean invalid [] = ok []
  clean invalid (p ∷ ps) =
      let rest = clean invalid ps in
      elim (path_match p []) [
        | none ↦ err (invalid p)
        | some b ↦ do cleaned ← rest; ok (trim_separators p ∷ cleaned)
      ]

  unfoldable pub new_path_filter : List Text → List Text → Result FilterError PathFilter
  unfolding clean
  new_path_filter exclude include = do
    cleaned_exclude ← clean invalid_exclude_pattern exclude
    cleaned_include ← clean invalid_include_pattern include
    ok (record { exclude_patterns = cleaned_exclude; include_patterns = cleaned_include })

  -- The loop of `Match` and of `MatchInclude`: an error ends it.
  unfoldable pub match_patterns : List Text → Text → Bool
  match_patterns [] path = false
  match_patterns (p ∷ ps) path =
      let rest = match_patterns ps path in
      elim (path_match p path) [ none ↦ false | some true ↦ true | some false ↦ rest ]

  unfoldable pub match_exclude : PathFilter → Text → Bool
  unfolding match_patterns
  match_exclude pf path = match_patterns pf.exclude_patterns path

  unfoldable pub match_include : PathFilter → Text → Bool
  unfolding match_patterns
  match_include pf rel_path = match_patterns pf.include_patterns rel_path

  -- The loop of `ShouldDescend`: an error counts as no match.
  unfoldable pub descend : List Text → Text → Bool
  descend [] dir_rel_path = false
  descend (p ∷ ps) dir_rel_path =
      let rest = descend ps dir_rel_path in
      elim (path_match p dir_rel_path) [
        | some true ↦ true
        | _ ↦ has_prefix p (dir_rel_path ++ b'/' ∷ []) || rest
      ]

  unfoldable pub should_descend : PathFilter → Text → Bool
  unfolding descend
  should_descend pf dir_rel_path = descend pf.include_patterns dir_rel_path
