-- ===== src/Build/Process/Samples.antt =====
-- A processor of two files, and one of a file that is not there.
use modctl.Prelude.{
  ◌≡◌, ◌≢◌, refl, Bool, true, false, Option, none, some, List, [], ◌∷◌, ◌++◌, if◌then◌else◌, Text,
  codes, text_eq, text_lt, mem, ok, is_ok, has_prefix, ap, sym, ◌∙◌, subst,
}
use mathlib.Core.Logic.{∥∥₁_elim}
use mathlib.Core.List.{forall_mem-cons, not-mem-nil, mem-map, Mem, map, reverse, reverse_perm}
use mathlib.Core.List.Perm
use modctl.Artifact.{Descriptor, filepath}
use modctl.Build.Builder.{Builder}
use modctl.Build.Process.{
  Paths, there, absent, Processor, built, process, paths_to_build, is_specific, full_path,
}
use modctl.Build.Process.Schedule.{IsKeyed, BuildsEach, process_schedule_free}
use modctl.Build.Process.Insertion.{sort_by_path, sort_by_path-IsSorting}
use modctl.Build.Process.Missing.{process_missing}

abbrev layer : Text → Descriptor
layer path = record {
  media_type = codes "weight";
  digest = path;
  size = 1;
  annotations = some (path, []);
  metadata = [];
}

abbrev found : List Text
found = codes "/m/a" ∷ codes "/m/b" ∷ codes "/m/c" ∷ []

-- The state is the paths that were built, of those that there are.
abbrev recording : Builder
recording = record {
  State = List Text;
  build_layer =
      λ s media_type path dest. (path ∷ s, if mem path found then some (layer path) else none);
  build_config = λ s config. (s, none);
  build_manifest = λ s layers config annotations. (s, none);
}

abbrev folder : Paths
folder = record {
  abs_work_dir = some (codes "/m");
  join = λ a b. a ++ codes "/" ++ b;
  base = λ p. p;
  stat = λ p. if text_eq p (codes "/m/no") then absent else there;
  glob = λ p. some (codes "/m/b" ∷ codes "/m/a" ∷ []);
}

abbrev weights : Processor
weights = record {
  media_type = codes "weight";
  patterns = codes "c" ∷ codes "*" ∷ [];
  dest_dir = [];
}

abbrev with_missing : Processor
with_missing = record {
  media_type = codes "weight";
  patterns = codes "*" ∷ codes "no" ∷ [];
  dest_dir = [];
}

abbrev never : List Text → Option Descriptor → Bool
never s r = false

weights_found : paths_to_build folder weights.patterns ≡ ok found
unfolding paths_to_build has_prefix text_lt text_eq
weights_found = refl

each_built :
    BuildsEach folder recording never 0 weights layer (λ s. mem (codes "/m/no") s ≡ false) found
unfolding built text_eq
each_built = (forall_mem-cons (λ x. hlevel)).1 (
  λ s h. (refl, h),
  (forall_mem-cons (λ x. hlevel)).1 (
    λ s h. (refl, h),
    (forall_mem-cons (λ x. hlevel)).1 (λ s h. (refl, h), λ x i. absurd (not-mem-nil i)),
  ),
)

filepath_lone : (path : Text) → filepath (some (path, [])) ≡ path
unfolding filepath
filepath_lone [] = refl
filepath_lone (c ∷ s) = refl

own_layer :
    (x : Descriptor) (paths : List Text)
    → Mem x (map layer paths)
    → x ≡ layer (filepath x.annotations)
own_layer x paths m = ∥∥₁_elim (mem-map.0 m) (hlevel) (λ t. of_path t.0 t.2)
  where
    of_path : (path : Text) → layer path ≡ x → x ≡ layer (filepath x.annotations)
    of_path path e =
        subst (λ y. y ≡ layer (filepath y.annotations)) e (ap layer (sym (filepath_lone path)))

layer-IsKeyed : (paths : List Text) → IsKeyed (map layer paths)
layer-IsKeyed paths x y mx my e = own_layer x paths mx ∙ ap layer e ∙ sym (own_layer y paths my)

process_schedule_free_example :
    (process folder recording never 0 (λ l. l) sort_by_path weights []).1
    ≡ (process folder recording never 0 reverse sort_by_path weights (codes "x" ∷ [])).1
unfolding text_eq
process_schedule_free_example =
    process_schedule_free folder recording never 0 weights layer (λ l. l) reverse sort_by_path
      sort_by_path found [] (codes "x" ∷ []) (λ s. mem (codes "/m/no") s ≡ false) Perm.refl
      reverse_perm sort_by_path-IsSorting sort_by_path-IsSorting weights_found each_built refl refl
      (layer-IsKeyed found)

no_is_specific : is_specific (codes "no") ≡ true
unfolding is_specific
no_is_specific = refl

no_is_absent : folder.stat (full_path folder (codes "/m") (codes "no")) ≢ there
unfolding full_path has_prefix text_eq
no_is_absent e = cc e

no_in_patterns : mem (codes "no") with_missing.patterns ≡ true
unfolding text_eq
no_in_patterns = refl

process_missing_example :
    ((process folder recording never 0 (λ l. l) sort_by_path with_missing []).0 ≡ [])
    × (is_ok (process folder recording never 0 (λ l. l) sort_by_path with_missing []).1 ≡ false)
process_missing_example =
    process_missing folder recording never 0 (λ l. l) sort_by_path with_missing (codes "/m")
      (codes "no") [] refl no_in_patterns no_is_specific no_is_absent
