-- ===== src/Retry/Rule.antt =====
-- The rule for a postcondition of `retry.Do`.
use modctl.Prelude.{ℕ, zero, suc, ◌≡◌, Bool, true, inl, inr, Bool-cases}
use modctl.Retry.{retried, retry}

module _ {S A : Type 0} (again : S → A → Bool) (call : S → S × A) (Before : S → Type 0)
    (After : S × A → Type 0) (first : (s : S) → Before s → After (call s))
    (next : (s : S) (a : A) → again s a ≡ true → After (s, a) → Before s) where
  retried_rule :
      (more : S → S × A)
      → ((s : S) → Before s → After (more s))
      → (s : S) (a : A) → After (s, a)
      → After (retried again more (s, a))
  unfolding retried
  retried_rule more go s a h = elim (Bool-cases (again s a)) [
    | inl e ↦ simp e (go s (next s a e h))
    | inr e ↦ simp e h
  ]

  -- A condition that the call turns into another, and that this one brings back before each
  -- attempt, holds as that other at the end.
  pub retry_rule : (n : ℕ) (s : S) → Before s → After (retry again n call s)
  unfolding retry
  retry_rule zero s h = first s h
  retry_rule (suc n) s h =
      retried_rule (retry again n call) (retry_rule n) (call s).0 (call s).1 (first s h)
