-- ===== src/Fetch/Selection.antt =====
-- Which layers a fetch selects.
use modctl.Prelude.{
  subst, ◌≡◌, refl, inl, inr, Bool, true, false, ◌||◌, Option, none, some, List, [], ◌∷◌, Text,
  Bool-cases, arith,
}
use mathlib.Core.List.{Mem, forall_mem-cons, not-mem-nil, mem-cons_self, mem-cons_of_mem}
use modctl.Transfer.{Descriptor}
use modctl.Fetch.{PathMatch, path_matched, append_if, matches_of, select_layers}

module _ (path_match : PathMatch) where
  is_true : Option Bool → Bool
  is_true none = false
  is_true (some b) = b

  -- Some pattern matches the path of the layer.
  unfoldable pub is_wanted : List Text → Descriptor → Bool
  unfolding is_true
  is_wanted [] layer = false
  is_wanted (p ∷ ps) layer =
      is_true (path_matched path_match layer.annotations p) || is_wanted ps layer

  append_if_sound :
      {P : Descriptor → Type 0} (prop : (x : Descriptor) → IsProp (P x)) (layer : Descriptor)
      (o : Option Bool) (rest : Option (List Descriptor)) (xs : List Descriptor)
      → append_if path_match layer o rest ≡ some xs
      → (is_true o ≡ true → P layer)
      → ((ys : List Descriptor) → rest ≡ some ys → (x : Descriptor) → Mem x ys → P x)
      → (x : Descriptor) → Mem x xs
      → P x
  unfolding append_if is_true
  append_if_sound {P} prop layer none rest xs h first others = cc h
  append_if_sound {P} prop layer (some b) none xs h first others = cc h
  append_if_sound {P} prop layer (some true) (some ys) xs h first others =
      subst (λ (zs : List Descriptor). (x : Descriptor) → Mem x zs → P x) (of_some h)
        ((forall_mem-cons prop).1 (first refl, others ys refl))
    where
      of_some : ◌≡◌ {A = Option (List Descriptor)} (some (layer ∷ ys)) (some xs) → layer ∷ ys ≡ xs
      of_some q = cc q
  append_if_sound {P} prop layer (some false) (some ys) xs h first others = others xs h

  matches_of_sound :
      {P : Descriptor → Type 0} (prop : (x : Descriptor) → IsProp (P x)) (layer : Descriptor)
      (ps : List Text) (rest : Option (List Descriptor)) (xs : List Descriptor)
      → matches_of path_match layer ps rest ≡ some xs
      → (is_wanted ps layer ≡ true → P layer)
      → ((ys : List Descriptor) → rest ≡ some ys → (x : Descriptor) → Mem x ys → P x)
      → (x : Descriptor) → Mem x xs
      → P x
  unfolding matches_of is_wanted
  matches_of_sound prop layer [] rest xs h first others = others xs h
  matches_of_sound prop layer (p ∷ ps) rest xs h first others =
      let o = path_matched path_match layer.annotations p in
      append_if_sound prop layer o (matches_of path_match layer ps rest) xs h
        (λ e. first (rw e refl))
        (λ ys e. matches_of_sound prop layer ps rest ys e (λ q. first (ground (arith, q))) others)

  append_if_complete :
      (layer : Descriptor) (o : Option Bool) (rest : Option (List Descriptor))
      (xs : List Descriptor)
      → append_if path_match layer o rest ≡ some xs
      → (ys : List Descriptor) × (rest ≡ some ys)
        × (is_true o ≡ true → Mem layer xs)
        × ((x : Descriptor) → Mem x ys → Mem x xs)
  unfolding append_if is_true
  append_if_complete layer none rest xs h = cc h
  append_if_complete layer (some b) none xs h = cc h
  append_if_complete layer (some true) (some ys) xs h = (
    ys,
    refl,
    λ e. subst (λ (zs : List Descriptor). Mem layer zs) (of_some h) mem-cons_self,
    λ x m. subst (λ (zs : List Descriptor). Mem x zs) (of_some h) (mem-cons_of_mem layer m),
  )
    where
      of_some : ◌≡◌ {A = Option (List Descriptor)} (some (layer ∷ ys)) (some xs) → layer ∷ ys ≡ xs
      of_some q = cc q
  append_if_complete layer (some false) (some ys) xs h = (xs, h, λ e. cc e, λ x m. m)

  matches_of_complete :
      (layer : Descriptor) (ps : List Text) (rest : Option (List Descriptor)) (xs : List Descriptor)
      → matches_of path_match layer ps rest ≡ some xs
      → (ys : List Descriptor) × (rest ≡ some ys)
        × (is_wanted ps layer ≡ true → Mem layer xs)
        × ((x : Descriptor) → Mem x ys → Mem x xs)
  unfolding matches_of is_wanted
  matches_of_complete layer [] rest xs h = (xs, h, λ e. cc e, λ x m. m)
  matches_of_complete layer (p ∷ ps) rest xs h =
      let o = path_matched path_match layer.annotations p in
      let (ys, e, this, into) =
        append_if_complete layer o (matches_of path_match layer ps rest) xs h in
      let (zs, e', later, into') = matches_of_complete layer ps rest ys e in
      (
        zs,
        e',
        λ w. elim (Bool-cases (is_true o)) [
          | inl t ↦ this t
          | inr f ↦ into layer (later (simp f at w))
        ],
        λ x m. into x (into' x m),
      )

  -- The layers that are selected, out of those of a manifest.
  abbrev pub IsSelection : List Text → List Descriptor → List Descriptor → Type 0
  IsSelection ps ls xs =
      ((x : Descriptor) → Mem x xs → Mem x ls × (is_wanted ps x ≡ true))
      × ((x : Descriptor) → Mem x ls → is_wanted ps x ≡ true → Mem x xs)

  -- If no pattern is bad, then the layers that are selected are those of the manifest whose path
  -- some pattern matches.
  pub select_layers-IsSelection :
      (ps : List Text) (ls xs : List Descriptor)
      → select_layers path_match ps ls ≡ some xs
      → IsSelection ps ls xs
  unfolding select_layers
  select_layers-IsSelection ps [] xs h =
      subst (IsSelection ps []) (of_some h)
        (λ x m. absurd (not-mem-nil m), λ x m. absurd (not-mem-nil m))
    where
      of_some : ◌≡◌ {A = Option (List Descriptor)} (some []) (some xs) → [] ≡ xs
      of_some q = cc q
  select_layers-IsSelection ps (l ∷ ls) xs h =
      let (ys, e, this, into) = matches_of_complete l ps (select_layers path_match ps ls) xs h in
      let ih = select_layers-IsSelection ps ls ys e in
      (
        matches_of_sound (λ x. hlevel) l ps (select_layers path_match ps ls) xs h
            (λ q. (mem-cons_self, q))
            (λ zs q x m.
              let (i, wanted) = (select_layers-IsSelection ps ls zs q).0 x m in
              (mem-cons_of_mem l i, wanted)),
        (forall_mem-cons (λ x. hlevel)).1 (this, λ x m wanted. into x (ih.1 x m wanted)),
      )
