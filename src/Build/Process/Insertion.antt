-- ===== src/Build/Process/Insertion.antt =====
-- A sorting that keeps what `sort.Slice` promises.
use modctl.Prelude.{
  ◌≡◌, inl, inr, true, false, List, [], ◌∷◌, Bool-cases, if◌then◌else◌, arith, text_lt_asymm,
  text_lt_cotrans,
}
use mathlib.Core.List.{Perm, Pairwise, Pairwise-singleton, forall_mem-cons}
use mathlib.Core.List.Perm
use modctl.Artifact.{Descriptor, filepath}
use modctl.Build.Process.{path_less}
use modctl.Build.Process.Schedule.{IsSorted, IsSorting}

insert_by_path : Descriptor → List Descriptor → List Descriptor
insert_by_path x [] = x ∷ []
insert_by_path x (y ∷ ys) =
    let rest = insert_by_path x ys in if path_less y x then y ∷ rest else x ∷ y ∷ ys

unfoldable pub sort_by_path : List Descriptor → List Descriptor
unfolding insert_by_path
sort_by_path [] = []
sort_by_path (x ∷ xs) = insert_by_path x (sort_by_path xs)

insert_by_path-Perm : (x : Descriptor) (ys : List Descriptor) → Perm (insert_by_path x ys) (x ∷ ys)
unfolding insert_by_path
insert_by_path-Perm x [] = Perm.refl (x ∷ [])
insert_by_path-Perm x (y ∷ ys) = elim (Bool-cases (path_less y x)) [
  | inl e ↦ simp e (Perm.trans (Perm.cons y (insert_by_path-Perm x ys)) (Perm.swap x y ys))
  | inr e ↦ simp e (Perm.refl (x ∷ y ∷ ys))
]

asymm_path : (x y : Descriptor) → path_less x y ≡ true → path_less y x ≡ false
unfolding path_less
asymm_path x y h = text_lt_asymm (filepath x.annotations) (filepath y.annotations) h

not_before :
    (x y z : Descriptor) → path_less y x ≡ false → path_less z y ≡ false → path_less z x ≡ false
unfolding path_less
not_before x y z p q = ground (
  arith,
  text_lt_cotrans (filepath z.annotations) (filepath y.annotations) (filepath x.annotations),
)

insert_by_path-IsSorted :
    (x : Descriptor) (ys : List Descriptor) → IsSorted ys → IsSorted (insert_by_path x ys)
unfolding insert_by_path
insert_by_path-IsSorted x [] s = Pairwise-singleton _ x
insert_by_path-IsSorted x (y ∷ ys) (Pairwise.cons h s) = elim (Bool-cases (path_less y x)) [
  | inl e ↦ simp e (
      Pairwise.cons
        (λ z m.
          (forall_mem-cons (λ w. hlevel)).1 (asymm_path y x e, h) z
            ((Perm.mem_iff (insert_by_path-Perm x ys)).0 m))
        (insert_by_path-IsSorted x ys s))
  | inr e ↦ simp e (
      Pairwise.cons ((forall_mem-cons (λ w. hlevel)).1 (e, λ z m. not_before x y z e (h z m)))
        (Pairwise.cons h s))
]

pub sort_by_path-IsSorting : IsSorting sort_by_path
unfolding sort_by_path
sort_by_path-IsSorting [] = (Pairwise.nil, Perm.refl [])
sort_by_path-IsSorting (x ∷ xs) =
    let (sorted, perm) = sort_by_path-IsSorting xs in
    (
      insert_by_path-IsSorted x (sort_by_path xs) sorted,
      Perm.trans (insert_by_path-Perm x (sort_by_path xs)) (Perm.cons x perm),
    )
