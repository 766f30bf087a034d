-- ===== src/Build/Process.antt =====
-- pkg/backend/processor/base.go: the files that the patterns of a Modelfile name, and their layers.
-- The build of a layer is one step; the order in which the goroutines take it is a parameter.
use modctl.Prelude.{
  ℕ, Bool, true, false, not, ◌&&◌, Option, none, some, List, [], ◌∷◌, ◌++◌, if◌then◌else◌, Text,
  codes, is_empty, has_prefix, any, ◌==◌, mem, Result, ok, err, ◌>>=◌, text_lt,
}
use modctl.Artifact.{Descriptor, filepath}
use modctl.Modelfile.Content.{sort_strings}
use modctl.Retry.{retry}
use modctl.Build.Builder.{Builder}
pub mod Missing
pub mod Schedule
pub mod Insertion
mod Samples

pub data Existence : Type 0 where
  there absent unchecked : Existence

pub data ProcessError : Type 0 where
  no_work_dir bad_pattern not_built : ProcessError
  does_not_exist failed_to_check : Text → ProcessError

-- What path/filepath and the disk say.
pub record Paths : Type 0 where
  pub abs_work_dir : Option Text
  pub join : Text → Text → Text
  pub base : Text → Text
  pub stat : Text → Existence
  pub glob : Text → Option (List Text)

-- `!strings.ContainsAny(pattern, "*?[]")`.
unfoldable pub is_specific : Text → Bool
is_specific pattern = not (any (λ c. any (λ w. c == w) (codes "*?[]")) pattern)

-- `filepath.IsAbs`.
unfoldable pub is_abs : Text → Bool
is_abs path = has_prefix path (codes "/")

module _ (ps : Paths) where
  unfoldable pub full_path : Text → Text → Text
  unfolding is_abs
  full_path work_dir pattern = if is_abs pattern then pattern else ps.join work_dir pattern

  unfoldable pub existing : Text → Text → Existence → Result ProcessError (List Text)
  existing pattern path there = ok (path ∷ [])
  existing pattern path absent = err (does_not_exist pattern)
  existing pattern path unchecked = err (failed_to_check pattern)

  unfoldable pub globbed : Option (List Text) → Result ProcessError (List Text)
  globbed none = err bad_pattern
  globbed (some matches) = ok matches

  unfoldable pub matches_of : Text → Text → Result ProcessError (List Text)
  unfolding is_specific full_path existing globbed
  matches_of work_dir pattern =
      if is_specific pattern
      then existing pattern (full_path work_dir pattern) (ps.stat (full_path work_dir pattern))
      else globbed (ps.glob (ps.join work_dir pattern))

  unfoldable pub matched_paths : Text → List Text → Result ProcessError (List Text)
  unfolding matches_of
  matched_paths work_dir [] = ok []
  matched_paths work_dir (pattern ∷ patterns) = do
    first ← matches_of work_dir pattern
    rest ← matched_paths work_dir patterns
    ok (first ++ rest)

  unfoldable pub work_dir_of : Option Text → Result ProcessError Text
  work_dir_of none = err no_work_dir
  work_dir_of (some work_dir) = ok work_dir

  -- The paths to build, in the order of their bytes.
  unfoldable pub paths_to_build : List Text → Result ProcessError (List Text)
  unfolding work_dir_of matched_paths sort_strings
  paths_to_build patterns = do
    work_dir ← work_dir_of ps.abs_work_dir
    paths ← matched_paths work_dir patterns
    ok (sort_strings paths)

  unfoldable pub dest_path : Text → Text → Text
  dest_path dest_dir path = if is_empty dest_dir then [] else ps.join dest_dir (ps.base path)

-- What `base` holds of its processor.
pub record Processor : Type 0 where
  pub media_type : Text
  pub patterns : List Text
  pub dest_dir : Text

module _ (ps : Paths) (b : Builder) (again : b.State → Option Descriptor → Bool)
    (attempts : ℕ) where
  -- One goroutine: the layer's build, with its retries.
  unfoldable pub built : Processor → Text → b.State → b.State × Option Descriptor
  unfolding dest_path retry
  built p path s =
      retry again attempts (λ t. b.build_layer t p.media_type path (dest_path ps p.dest_dir path)) s

  -- The layer with those of the other files; a failure cancels what is left.
  unfoldable pub with_layer :
      b.State × Option Descriptor
      → (b.State → b.State × Option (List Descriptor))
      → b.State × Option (List Descriptor)
  with_layer (s, none) rest = (s, none)
  with_layer (s, some desc) rest =
      let (t, descs) = rest s in (t, elim descs [ none ↦ none | some ds ↦ some (desc ∷ ds) ])

  unfoldable pub build_all : Processor → List Text → b.State → b.State × Option (List Descriptor)
  unfolding built with_layer
  build_all p [] s = (s, some [])
  build_all p (path ∷ paths) s = with_layer (built p path s) (build_all p paths)

  unfoldable pub all_built :
      (List Descriptor → List Descriptor)
      → b.State × Option (List Descriptor)
      → b.State × Result ProcessError (List Descriptor)
  all_built sort (s, none) = (s, err not_built)
  all_built sort (s, some descs) = (s, ok (sort descs))

  unfoldable pub process_paths :
      (List Text → List Text)
      → (List Descriptor → List Descriptor)
      → Processor
      → Result ProcessError (List Text)
      → b.State
      → b.State × Result ProcessError (List Descriptor)
  unfolding build_all all_built
  process_paths schedule sort p (err e) s = (s, err e)
  process_paths schedule sort p (ok paths) s = all_built sort (build_all p (schedule paths) s)

  -- `Process`: `schedule` is the order in which the goroutines end, and `sort` is `sort.Slice`.
  unfoldable pub process :
      (List Text → List Text)
      → (List Descriptor → List Descriptor)
      → Processor
      → b.State
      → b.State × Result ProcessError (List Descriptor)
  unfolding process_paths paths_to_build
  process schedule sort p s = process_paths schedule sort p (paths_to_build ps p.patterns) s

-- The comparison of `sort.Slice`.
unfoldable pub path_less : Descriptor → Descriptor → Bool
unfolding filepath
path_less d e = text_lt (filepath d.annotations) (filepath e.annotations)
