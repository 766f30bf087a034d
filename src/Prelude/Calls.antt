-- ===== src/Prelude/Calls.antt =====
-- Calls that change a state and may fail, one after the other.
use mathlib.Core.Path.{◌≡◌, refl}
use mathlib.Core.Logic.{◌⊎◌, inl, inr}
use mathlib.Core.Bool.{Bool, true, false}
use mathlib.Core.Option.{Option, none, some}

module _ {S : Type 0} where
  -- The next call, if the one before ended well.
  abbrev pub and_then : S × Bool → (S → S × Bool) → S × Bool
  and_then (s, false) next = (s, false)
  and_then (s, true) next = next s

  pub and_then-eq-ok :
      (p : S × Bool) (next : S → S × Bool)
      → (and_then p next).1 ≡ true
      → (p.1 ≡ true) × (and_then p next ≡ next p.0)
  and_then-eq-ok (s, false) next h = cc
  and_then-eq-ok (s, true) next h = (refl, refl)

  pub and_then-cases :
      (p : S × Bool) (next : S → S × Bool)
      → ((p.1 ≡ false) × (and_then p next ≡ p)) ⊎ ((p.1 ≡ true) × (and_then p next ≡ next p.0))
  and_then-cases (s, false) next = inl (refl, refl)
  and_then-cases (s, true) next = inr (refl, refl)

module _ {S A B : Type 0} where
  -- The next call with the value of the one before, if there is one.
  abbrev pub then_with : S × Option A → (A → S → S × Option B) → S × Option B
  then_with (s, none) next = (s, none)
  then_with (s, some a) next = next a s

  pub then_with-eq-some :
      (p : S × Option A) (next : A → S → S × Option B) {b : B}
      → (then_with p next).1 ≡ some b
      → (a : A) × (p.1 ≡ some a) × (then_with p next ≡ next a p.0)
  then_with-eq-some (s, none) next h = cc
  then_with-eq-some (s, some a) next h = (a, refl, refl)

  pub then_with-cases :
      (p : S × Option A) (next : A → S → S × Option B)
      → ((p.1 ≡ none) × (then_with p next ≡ (p.0, none)))
        ⊎ ((a : A) × (p.1 ≡ some a) × (then_with p next ≡ next a p.0))
  then_with-cases (s, none) next = inl (refl, refl)
  then_with-cases (s, some a) next = inr (a, refl, refl)
