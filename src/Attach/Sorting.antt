-- ===== src/Attach/Sorting.antt =====
-- `sortLayers` yields the stable sorting of the layers.
use modctl.Prelude.{
  text_lt, ◌+◌, Text, ◌⊎◌, ℕ, ◌<◌, ◌≡◌, refl, sym, ap, ◌∙◌, subst, inl, inr, Bool, true, false, not,
  ◌&&◌, List, [], ◌∷◌, arith, ◌==◌, if◌then◌else◌, ==_iff, Bool-cases, &&-eq-true, text_eq,
  text_eq_sound, text_lt_irrefl, text_lt_asymm,
}
use modctl.Artifact.{filepath, Descriptor}
use modctl.Attach.{priority, MediaTypes, Key, key, less, insert_layer, sort_layers}

less_irrefl : (a : Key) → less a a ≡ false
unfolding less
less_irrefl (p, f) = ground (arith, text_lt_irrefl f)

less_asymm : (a b : Key) → less a b ≡ true → less b a ≡ false
unfolding less
less_asymm (p, f) (q, g) h = ground (arith, text_lt_asymm f g)

abbrev pub same_key : Key → Key → Bool
same_key a b = a.0 == b.0 && text_eq a.1 b.1

same_key_sound : (a b : Key) → same_key a b ≡ true → a ≡ b
same_key_sound (p, f) (q, g) h =
    let (a, b) = &&-eq-true (p == q) (text_eq f g) h in cc ((==_iff p q).0 a, text_eq_sound f g b)

-- The place of a text in a list, 0 if it is not there.
abbrev pub place : ℕ → Text → List Text → ℕ
place n t [] = 0
place n t (x ∷ xs) = if text_eq t x then n else place (n + 1) t xs

module _ (ts : MediaTypes) where
  -- Weight configurations, weights, code and documents, in this order; all else with the first.
  abbrev pub group : Descriptor → ℕ
  group l = place 0 l.media_type (ts.weight_config ∷ ts.weight ∷ ts.code ∷ ts.doc ∷ [])

  -- The group of a layer is before that of the other, or it is the same and the path is not after.
  abbrev pub InOrder : Descriptor → Descriptor → Type 0
  InOrder x y =
      (group x < group y)
      ⊎ ((group x ≡ group y) × (text_lt (filepath y.annotations) (filepath x.annotations) ≡ false))

  priority-group : (l : Descriptor) → priority ts l.media_type ≡ group l
  unfolding priority
  priority-group l = ground arith

  less-false :
      (p q : ℕ) (f g : Text)
      → less (q, g) (p, f) ≡ false
      → (p < q) ⊎ ((p ≡ q) × (text_lt g f ≡ false))
  unfolding less
  less-false p q f g h = elim (Bool-cases (q == p)) [
    | inl e ↦ inr (sym ((==_iff q p).0 e), (simp e at h))
    | inr e ↦ inl (ground (arith, e, h))
  ]

  less-InOrder : (x y : Descriptor) → less (key ts y) (key ts x) ≡ false → InOrder x y
  unfolding key
  less-InOrder x y h =
      subst
        (λ (n : ℕ × ℕ).
          (n.0 < n.1)
          ⊎ ((n.0 ≡ n.1) × (text_lt (filepath y.annotations) (filepath x.annotations) ≡ false)))
        (cc (priority-group x, priority-group y))
        (less-false (priority ts x.media_type) (priority ts y.media_type) (filepath x.annotations)
          (filepath y.annotations) h)

  -- No layer comes before one that is less than it.
  abbrev is_sorted : List Descriptor → Bool
  is_sorted [] = true
  is_sorted (x ∷ []) = true
  is_sorted (x ∷ y ∷ ls) = not (less (key ts y) (key ts x)) && is_sorted (y ∷ ls)

  -- The layers of one key, in their order.
  abbrev pub of_key : Key → List Descriptor → List Descriptor
  of_key k [] = []
  of_key k (x ∷ xs) = if same_key k (key ts x) then x ∷ of_key k xs else of_key k xs

  is_sorted-insert_layer :
      (x : Descriptor) (ls : List Descriptor)
      → is_sorted ls ≡ true
      → is_sorted (insert_layer ts x ls) ≡ true
  unfolding insert_layer
  is_sorted-insert_layer x [] h = refl
  is_sorted-insert_layer x (y ∷ []) h = ground (arith, less_asymm (key ts y) (key ts x))
  is_sorted-insert_layer x (y ∷ z ∷ ls) h =
      ground (arith, is_sorted-insert_layer x (z ∷ ls), less_asymm (key ts y) (key ts x))

  less_not_same :
      (k : Key) (x y : Descriptor)
      → less (key ts y) (key ts x) ≡ true
      → same_key k (key ts x) ≡ true
      → same_key k (key ts y) ≡ false
  less_not_same k x y l h = elim (Bool-cases (same_key k (key ts y))) [
    | inl e ↦
        let equal = sym (same_key_sound k (key ts y) e) ∙ same_key_sound k (key ts x) h in
        let never = subst (λ a. less (key ts y) a ≡ false) equal (less_irrefl (key ts y)) in
        cc (l, never)
    | inr e ↦ e
  ]

  of_key-insert_layer :
      (k : Key) (x : Descriptor) (ls : List Descriptor)
      → of_key k (insert_layer ts x ls) ≡ of_key k (x ∷ ls)
  unfolding insert_layer
  of_key-insert_layer k x [] = refl
  of_key-insert_layer k x (y ∷ ls) = ground (arith, of_key-insert_layer k x ls, less_not_same k x y)

  is_sorted-sort_layers : (ls : List Descriptor) → is_sorted (sort_layers ts ls) ≡ true
  unfolding sort_layers
  is_sorted-sort_layers [] = refl
  is_sorted-sort_layers (x ∷ ls) =
      is_sorted-insert_layer x (sort_layers ts ls) (is_sorted-sort_layers ls)

  of_key-sort_layers : (k : Key) (ls : List Descriptor) → of_key k (sort_layers ts ls) ≡ of_key k ls
  unfolding sort_layers
  of_key-sort_layers k [] = refl
  of_key-sort_layers k (x ∷ ls) =
      of_key-insert_layer k x (sort_layers ts ls)
      ∙ ap (λ r. if same_key k (key ts x) then x ∷ r else r) (of_key-sort_layers k ls)

  -- Each layer and the next one are in order.
  abbrev pub AllInOrder : List Descriptor → Type 0
  AllInOrder [] = Unit
  AllInOrder (x ∷ []) = Unit
  AllInOrder (x ∷ y ∷ ls) = InOrder x y × AllInOrder (y ∷ ls)

  is_sorted-AllInOrder : (ls : List Descriptor) → is_sorted ls ≡ true → AllInOrder ls
  is_sorted-AllInOrder [] h = tt
  is_sorted-AllInOrder (x ∷ []) h = tt
  is_sorted-AllInOrder (x ∷ y ∷ ls) h =
      let (first, rest) = &&-eq-true (not (less (key ts y) (key ts x))) (is_sorted (y ∷ ls)) h in
      (less-InOrder x y (ground (arith, first)), is_sorted-AllInOrder (y ∷ ls) rest)

-- `sortLayers` puts weight configurations and all types that have no priority first, then weights,
-- then code, then documents, each group by its paths, and is stable: the layers of each priority and
-- path are those that there were, in the order in which they stood.
pub sort_layers-stable :
    (ts : MediaTypes) (ls : List Descriptor)
    → AllInOrder ts (sort_layers ts ls)
      × ((k : Key) → of_key ts k (sort_layers ts ls) ≡ of_key ts k ls)
sort_layers-stable ts ls = (
  is_sorted-AllInOrder ts (sort_layers ts ls) (is_sorted-sort_layers ts ls),
  λ k. of_key-sort_layers ts k ls,
)
