-- ===== src/Modelfile/HashSet.antt =====
-- The set of github.com/emirpasic/gods that pkg/modelfile/modelfile.go keeps its files in. It is
-- not part of this repository: its type and methods are a parameter, with what `Add`, `Values` and
-- `Size` are documented to do. The order of `Values` is left open, as it is in the package.
use modctl.Prelude.{
  ℕ, Text, text_eq, mem, List, [], ◌∷◌, false, ◌||◌, if◌then◌else◌, length, ◌≡◌, refl, Bool-cases,
  inl, inr, text_eq_sound,
}

pub record HashSet : Type 1 where
  pub Set : Type 0
  pub new : Set
  pub add : Set → Text → Set
  pub values : Set → List Text
  pub size : Set → ℕ
  pub mem-new : (x : Text) → mem x (values new) ≡ false
  pub mem-add :
      (x y : Text) (s : Set) → mem x (values (add s y)) ≡ (text_eq x y || mem x (values s))
  pub size-eq-length : (s : Set) → size s ≡ length (values s)

abbrev add_to_list : List Text → Text → List Text
add_to_list s x = if mem x s then s else x ∷ s

pub mem-add_to_list :
    (x y : Text) (s : List Text) → mem x (add_to_list s y) ≡ (text_eq x y || mem x s)
mem-add_to_list x y s = elim (Bool-cases (mem y s)) [
  | inl old ↦ elim (Bool-cases (text_eq x y)) [
    | inl same ↦ rw (old, same) (rw (text_eq_sound x y same) old)
    | inr other ↦ rw (old, other)
  ]
  | inr fresh ↦ rw fresh
]

-- The interface can be met: by a list that takes each text once.
abbrev pub list_set : HashSet
list_set = record {
  Set = List Text;
  new = [];
  add = add_to_list;
  values = λ s. s;
  size = length;
  mem-new = λ x. refl;
  mem-add = mem-add_to_list;
  size-eq-length = λ s. refl;
}
