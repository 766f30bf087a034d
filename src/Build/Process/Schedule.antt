-- ===== src/Build/Process/Schedule.antt =====
-- The layers of a processor do not depend on the order in which its goroutines end.
use modctl.Prelude.{
  ℕ, ◌≡◌, refl, sym, ap, ◌∙◌, subst, Bool, false, Option, none, some, List, [], ◌∷◌, Text,
  text_lt_connex, text_lt_irrefl, ok,
}
use mathlib.Core.Path.{ap₂}
use mathlib.Core.List.{Mem, Perm, Pairwise, mem-cons_self, mem-cons_of_mem, forall_mem-cons, map}
use mathlib.Core.List.Pairwise
use mathlib.Core.List.Perm
use modctl.Artifact.{Descriptor, filepath}
use modctl.Build.Builder.{Builder}
use modctl.Build.Process.{
  Paths, Processor, built, with_layer, build_all, all_built, process_paths, process, paths_to_build,
  path_less,
}

-- No layer stands before one whose path is less.
abbrev pub IsSorted : List Descriptor → Type 0
IsSorted = Pairwise (λ x y. path_less y x ≡ false)

-- What `sort.Slice` promises: it is not stable.
abbrev pub IsSorting : (List Descriptor → List Descriptor) → Type 0
IsSorting sort = (ls : List Descriptor) → IsSorted (sort ls) × Perm (sort ls) ls

-- Layers of one path are one layer.
abbrev pub IsKeyed : List Descriptor → Type 0
IsKeyed ls =
    (x y : Descriptor)
    → Mem x ls
    → Mem y ls
    → filepath x.annotations ≡ filepath y.annotations
    → x ≡ y

not_after_head :
    (x y : Descriptor) (ls : List Descriptor)
    → IsSorted (x ∷ ls)
    → Mem y (x ∷ ls)
    → path_less y x ≡ false
unfolding path_less
not_after_head x y ls (Pairwise.cons h s) m =
    (forall_mem-cons (λ z. hlevel)).1 (text_lt_irrefl (filepath x.annotations), h) y m

same_path :
    (x y : Descriptor)
    → path_less x y ≡ false
    → path_less y x ≡ false
    → filepath x.annotations ≡ filepath y.annotations
unfolding path_less
same_path x y p q = text_lt_connex (filepath x.annotations) (filepath y.annotations) p q

IsSorted-unique :
    (xs ys : List Descriptor) → IsSorted xs → IsSorted ys → Perm xs ys → IsKeyed xs → xs ≡ ys
IsSorted-unique [] ys sx sy p keyed = Perm.nil-eq p
IsSorted-unique (x ∷ xs) [] sx sy p keyed = Perm.eq-nil p
IsSorted-unique (x ∷ xs) (y ∷ ys) sx sy p keyed =
    let y_in = (Perm.mem_iff p).1 mem-cons_self in
    let x_in = (Perm.mem_iff p).0 mem-cons_self in
    let e =
      keyed x y mem-cons_self y_in
        (same_path x y (not_after_head y x ys sy x_in) (not_after_head x y xs sx y_in)) in
    let tails = Perm.cons_inv (subst (λ z. Perm (x ∷ xs) (z ∷ ys)) (sym e) p) in
    ap₂ ◌∷◌ e (
      IsSorted-unique xs ys (Pairwise.of_cons sx) (Pairwise.of_cons sy) tails
        (λ u v mu mv q. keyed u v (mem-cons_of_mem x mu) (mem-cons_of_mem x mv) q))

module _ (ps : Paths) (b : Builder) (again : b.State → Option Descriptor → Bool) (n : ℕ)
    (p : Processor) where
  with_layer-some :
      (q : b.State × Option Descriptor) (rest : b.State → b.State × Option (List Descriptor))
      (d : Descriptor) (ds : List Descriptor)
      → q.1 ≡ some d
      → (rest q.0).1 ≡ some ds
      → (with_layer ps b again n q rest).1 ≡ some (d ∷ ds)
  unfolding with_layer
  with_layer-some (s, none) rest d ds one more = cc
  with_layer-some (s, some e) rest d ds one more = rw more (cc one)

  -- While a condition holds, each of some paths is built to its layer, and the condition stays.
  abbrev pub BuildsEach : (Text → Descriptor) → (b.State → Type 0) → List Text → Type 0
  BuildsEach layer_of Ready paths =
      (path : Text)
      → Mem path paths
      → (t : b.State) → Ready t
      → ((built ps b again n p path t).1 ≡ some (layer_of path))
        × Ready (built ps b again n p path t).0

  module _ (layer_of : Text → Descriptor) (Ready : b.State → Type 0) where
    build_all-map :
        (paths : List Text)
        → BuildsEach layer_of Ready paths
        → (s : b.State) → Ready s
        → (build_all ps b again n p paths s).1 ≡ some (map layer_of paths)
    unfolding build_all
    build_all-map [] builds s ready = refl
    build_all-map (path ∷ paths) builds s ready =
        let q = built ps b again n p path s in
        let (one, still) = builds path mem-cons_self s ready in
        with_layer-some q (build_all ps b again n p paths) (layer_of path) (map layer_of paths) one
          (build_all-map paths (λ x i. builds x (mem-cons_of_mem path i)) q.0 still)

    all_built-ok :
        (sort : List Descriptor → List Descriptor) (q : b.State × Option (List Descriptor))
        (ds : List Descriptor)
        → q.1 ≡ some ds
        → (all_built ps b again n sort q).1 ≡ ok (sort ds)
    unfolding all_built
    all_built-ok sort (s, none) ds h = cc
    all_built-ok sort (s, some es) ds h = cc h

    process-map :
        (schedule : List Text → List Text) (sort : List Descriptor → List Descriptor)
        (paths : List Text) (s : b.State)
        → ((l : List Text) → Perm (schedule l) l)
        → paths_to_build ps p.patterns ≡ ok paths
        → BuildsEach layer_of Ready paths
        → Ready s
        → (process ps b again n schedule sort p s).1 ≡ ok (sort (map layer_of (schedule paths)))
    unfolding process process_paths
    process-map schedule sort paths s any h builds ready = rw h (
        all_built-ok sort (build_all ps b again n p (schedule paths) s)
          (map layer_of (schedule paths))
          (build_all-map (schedule paths) (λ x i. builds x ((Perm.mem_iff (any paths)).0 i)) s
            ready))

-- If the paths are found, and if each of them, while some condition on the state holds, is built to a
-- layer of its own path and leaves the condition true, then the layers that `Process` yields are the
-- same for any two orders in which the goroutines end, any two ways in which `sort.Slice` places
-- equals, and any two states at the start for which the condition holds.
pub process_schedule_free :
    (ps : Paths) (b : Builder) (again : b.State → Option Descriptor → Bool) (n : ℕ) (p : Processor)
    (layer_of : Text → Descriptor) (schedule schedule' : List Text → List Text)
    (sort sort' : List Descriptor → List Descriptor) (paths : List Text) (s s' : b.State)
    (Ready : b.State → Type 0)
    → ((l : List Text) → Perm (schedule l) l)
    → ((l : List Text) → Perm (schedule' l) l)
    → IsSorting sort
    → IsSorting sort'
    → paths_to_build ps p.patterns ≡ ok paths
    → BuildsEach ps b again n p layer_of Ready paths
    → Ready s
    → Ready s'
    → IsKeyed (map layer_of paths)
    → (process ps b again n schedule sort p s).1 ≡ (process ps b again n schedule' sort' p s').1
process_schedule_free ps b again n p layer_of schedule schedule' sort sort' paths s s' Ready any
      any' sorting sorting' found builds ready ready' keyed =
    let first = map layer_of (schedule paths) in
    let second = map layer_of (schedule' paths) in
    let same_layers =
      Perm.trans (Perm.map layer_of (any paths)) (Perm.symm (Perm.map layer_of (any' paths))) in
    let sorted =
      IsSorted-unique (sort first) (sort' second) (sorting first).0 (sorting' second).0
        (Perm.trans (sorting first).1 (Perm.trans same_layers (Perm.symm (sorting' second).1)))
        (λ x y mx my.
          keyed x y
            ((Perm.mem_iff (Perm.trans (sorting first).1 (Perm.map layer_of (any paths)))).0 mx)
            ((Perm.mem_iff (Perm.trans (sorting first).1 (Perm.map layer_of (any paths)))).0 my)) in
    process-map ps b again n p layer_of Ready schedule sort paths s any found builds ready
    ∙ ap (λ ds. ok ds) sorted
    ∙ sym (
        process-map ps b again n p layer_of Ready schedule' sort' paths s' any' found builds ready')
