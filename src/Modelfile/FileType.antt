-- ===== src/Modelfile/FileType.antt =====
-- pkg/modelfile/constants.go below its tables: the type of a file by its name and size. The units
-- of github.com/dustin/go-humanize, which is not part of this repository, are a parameter.
pub mod Infer
use modctl.Prelude.{
  ℕ, ◌+◌, ◌*◌, Text, text_eq, codes, List, [], ◌∷◌, Bool, true, false, ◌&&◌, ◌||◌, ltb, any,
  if◌then◌else◌, ◌≡◌, refl,
}
use modctl.Modelfile.Glob.{to_lower, glob, base}
use modctl.Modelfile.Patterns.{
  config_file_patterns, model_file_patterns, code_file_patterns, doc_file_patterns, skip_patterns,
}

-- The SI units, as the package documents them.
pub record Humanize : Type 0 where
  pub m_byte : ℕ
  pub g_byte : ℕ
  pub t_byte : ℕ
  pub m_byte_lem : m_byte ≡ 1000 * 1000
  pub g_byte_lem : g_byte ≡ 1000 * m_byte
  pub t_byte_lem : t_byte ≡ 1000 * g_byte

abbrev pub si_units : Humanize
si_units = record {
  m_byte = 1000000;
  g_byte = 1000000000;
  t_byte = 1000000000000;
  m_byte_lem = refl;
  g_byte_lem = refl;
  t_byte_lem = refl;
}

pub data FileType : Type 0 where
  config model code doc : FileType

module _ (u : Humanize) where
  unfoldable pub weight_file_size_threshold : ℕ
  weight_file_size_threshold = 128 * u.m_byte

  unfoldable pub max_single_file_size : ℕ
  max_single_file_size = 128 * u.g_byte

  unfoldable pub max_total_workspace_size : ℕ
  max_total_workspace_size = 8 * u.t_byte

  unfoldable pub size_should_be_weight_file : ℕ → Bool
  unfolding weight_file_size_threshold
  size_should_be_weight_file size = ltb weight_file_size_threshold size

abbrev pub max_workspace_file_count : ℕ
max_workspace_file_count = 2048

unfoldable pub is_file_type : Text → List Text → Bool
is_file_type filename patterns = any (λ p. glob (to_lower p) (base (to_lower filename))) patterns

unfoldable pub is_skippable : Text → Bool
is_skippable filename =
    if text_eq filename (codes ".") || text_eq filename (codes "..")
    then false
    else any (λ p. glob (to_lower p) (to_lower filename)) skip_patterns

unfoldable pub infer_file_type : Humanize → Text → ℕ → FileType
unfolding is_file_type size_should_be_weight_file
infer_file_type u filename size =
    if is_file_type filename config_file_patterns
    then config
    else if is_file_type filename model_file_patterns
    then model
    else if is_file_type filename code_file_patterns
    then code
    else if is_file_type filename doc_file_patterns
    then doc
    else if size_should_be_weight_file u size
    then model
    else code
