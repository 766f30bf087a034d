-- ===== src/Prelude/Results.antt =====
-- Go's pair of a value and an error, as one value.
use mathlib.Core.Path.{◌≡◌, refl}
use mathlib.Core.Bool.{Bool, true, false}

pub data Result (Error Value : Type 0) : Type 0 where
  err : Error → Result Error Value
  ok : Value → Result Error Value

abbrev pub is_ok : {E A : Type 0} → Result E A → Bool
is_ok (err e) = false
is_ok (ok a) = true

-- The early return on an error.
infixl 5 ◌>>=◌
abbrev pub ◌>>=◌ :
    {E : Type 0} {A : Type 0} {B : Type 0} → Result E A → (A → Result E B) → Result E B
err problem >>= next = err problem
ok value >>= next = next value

-- If a chain ends well, then so did its first part, with a value from which the rest goes on.
pub >>=-eq-ok :
    {E : Type 0} {A : Type 0} {B : Type 0} (first : Result E A) (next : A → Result E B) {last : B}
    → (first >>= next) ≡ ok last
    → (value : A) × (first ≡ ok value) × (next value ≡ ok last)
>>=-eq-ok (err problem) next done = cc
>>=-eq-ok (ok value) next done = (value, refl, done)

pub ok-injective : {E A : Type 0} {a b : A} → ◌≡◌ {A = Result E A} (ok a) (ok b) → a ≡ b
ok-injective e = cc e
