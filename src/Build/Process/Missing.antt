-- ===== src/Build/Process/Missing.antt =====
-- A pattern without wildcards names a file that has to be there.
use modctl.Prelude.{
  ◌⊎◌, ℕ, ◌≡◌, refl, subst, ◌≢◌, inl, inr, Bool, true, false, ◌++◌, Option, some, List, [], ◌∷◌,
  arith, Bool-cases, Text, text_eq, text_eq_sound, mem, Result, is_ok, ok, err, ◌>>=◌,
}
use modctl.Modelfile.Content.{sort_strings}
use modctl.Artifact.{Descriptor}
use modctl.Build.Builder.{Builder}
use modctl.Build.Process.{
  Paths, Existence, there, absent, unchecked, Processor, ProcessError, is_specific, full_path,
  existing, matches_of, matched_paths, paths_to_build, work_dir_of, process_paths, process,
}

module _ (ps : Paths) (work_dir pattern : Text) (specific : is_specific pattern ≡ true)
    (missing : ps.stat (full_path ps work_dir pattern) ≢ there) where
  existing-not_ok :
      (path : Text) (e : Existence) → e ≢ there → is_ok (existing ps pattern path e) ≡ false
  unfolding existing
  existing-not_ok path there h = absurd (h refl)
  existing-not_ok path absent h = refl
  existing-not_ok path unchecked h = refl

  matches_of-not_ok : is_ok (matches_of ps work_dir pattern) ≡ false
  unfolding matches_of
  matches_of-not_ok = simp specific (
      existing-not_ok (full_path ps work_dir pattern) (ps.stat (full_path ps work_dir pattern))
        missing)

  appended : {A : Type 0} (r s : Result ProcessError (List A)) → Result ProcessError (List A)
  appended r s = do first ← r; rest ← s; ok (first ++ rest)

  appended-not_ok :
      (r s : Result ProcessError (List Text))
      → ((is_ok r ≡ false) ⊎ (is_ok s ≡ false))
      → is_ok (appended r s) ≡ false
  unfolding appended
  appended-not_ok (err e) s h = refl
  appended-not_ok (ok x) (err e) h = refl
  appended-not_ok (ok x) (ok y) (inl h) = cc h
  appended-not_ok (ok x) (ok y) (inr h) = cc h

  matched_paths-not_ok :
      (patterns : List Text)
      → mem pattern patterns ≡ true
      → is_ok (matched_paths ps work_dir patterns) ≡ false
  unfolding matched_paths appended
  matched_paths-not_ok [] h = cc h
  matched_paths-not_ok (q ∷ qs) h = elim (Bool-cases (text_eq pattern q)) [
    | inl e ↦ appended-not_ok (matches_of ps work_dir q) (matched_paths ps work_dir qs) (
        inl (
          subst (λ x. is_ok (matches_of ps work_dir x) ≡ false) (text_eq_sound pattern q e)
            matches_of-not_ok))
    | inr e ↦
        appended-not_ok (matches_of ps work_dir q) (matched_paths ps work_dir qs)
          (inr (matched_paths-not_ok qs (ground arith)))
  ]

  sorted-not_ok :
      (r : Result ProcessError (List Text))
      → is_ok r ≡ false
      → is_ok (r >>= (λ paths. ok (sort_strings paths))) ≡ false
  sorted-not_ok (err e) h = refl
  sorted-not_ok (ok x) h = cc h

  paths_to_build-not_ok :
      (patterns : List Text)
      → ps.abs_work_dir ≡ some work_dir
      → mem pattern patterns ≡ true
      → is_ok (paths_to_build ps patterns) ≡ false
  unfolding paths_to_build work_dir_of
  paths_to_build-not_ok patterns here h =
      rw here (sorted-not_ok (matched_paths ps work_dir patterns) (matched_paths-not_ok patterns h))

module _ (ps : Paths) (b : Builder) (again : b.State → Option Descriptor → Bool) (n : ℕ) where
  process_paths-not_ok :
      (schedule : List Text → List Text) (sort : List Descriptor → List Descriptor) (p : Processor)
      (r : Result ProcessError (List Text)) (s : b.State)
      → is_ok r ≡ false
      → ((process_paths ps b again n schedule sort p r s).0 ≡ s)
        × (is_ok (process_paths ps b again n schedule sort p r s).1 ≡ false)
  unfolding process_paths
  process_paths-not_ok schedule sort p (err e) s h = (refl, refl)
  process_paths-not_ok schedule sort p (ok x) s h = cc h

  -- If a pattern without wildcards names a file that is not there, or that cannot be checked, then
  -- `Process` ends with an error, whatever the other patterns name, and has built nothing.
  pub process_missing :
      (schedule : List Text → List Text) (sort : List Descriptor → List Descriptor) (p : Processor)
      (work_dir pattern : Text) (s : b.State)
      → ps.abs_work_dir ≡ some work_dir
      → mem pattern p.patterns ≡ true
      → is_specific pattern ≡ true
      → ps.stat (full_path ps work_dir pattern) ≢ there
      → ((process ps b again n schedule sort p s).0 ≡ s)
        × (is_ok (process ps b again n schedule sort p s).1 ≡ false)
  unfolding process
  process_missing schedule sort p work_dir pattern s here in_patterns specific missing =
      process_paths-not_ok schedule sort p (paths_to_build ps p.patterns) s
        (paths_to_build-not_ok ps work_dir pattern specific missing p.patterns here in_patterns)
