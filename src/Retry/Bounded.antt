-- ===== src/Retry/Bounded.antt =====
-- How often `retry.Do` calls.
use modctl.Prelude.{
  ℕ, zero, suc, ◌≤◌, ◌<◌, ◌≡◌, refl, Bool, true, false, ◌⊎◌, inl, inr, arith, Bool-cases, ap,
}
use modctl.Retry.{retried, retry}

module _ {S A : Type 0} (again : S → A → Bool) (call : S → S × A) where
  -- The outcome of the last of some calls in a row, the first not counted.
  abbrev pub nth_call : ℕ → S → S × A
  nth_call zero s = call s
  nth_call (suc k) s = nth_call k (call s).0

  abbrev pub wants_more : S × A → Bool
  wants_more (s, a) = again s a

  -- What the retries come to: the outcome of a call that is the last one allowed or that no
  -- other has to follow, where each call before it has to be followed by another.
  abbrev pub RetryOutcome : ℕ → S → S × A → Type 0
  RetryOutcome n s p =
      (k : ℕ) × (k ≤ n)
      × (p ≡ nth_call k s)
      × ((j : ℕ) → j < k → wants_more (nth_call j s) ≡ true)
      × ((k ≡ n) ⊎ (wants_more (nth_call k s) ≡ false))

  later_calls :
      (n : ℕ) (s : S)
      → wants_more (call s) ≡ true
      → (p : S × A) → RetryOutcome n (call s).0 p
      → RetryOutcome (suc n) s p
  later_calls n s e p (k, le, same, before, last) = (suc k, omega arith, same, earlier, end last)
    where
      earlier : (j : ℕ) → j < suc k → wants_more (nth_call j s) ≡ true
      earlier zero h = e
      earlier (suc j) h = before j (omega arith)

      end :
          (k ≡ n) ⊎ (wants_more (nth_call k (call s).0) ≡ false)
          → (suc k ≡ suc n) ⊎ (wants_more (nth_call (suc k) s) ≡ false)
      end (inl q) = inl (ap (λ x. suc x) q)
      end (inr q) = inr q

  outcome_after :
      (n : ℕ) (s : S)
      → RetryOutcome n (call s).0 (retry again n call (call s).0)
      → RetryOutcome (suc n) s (retried again (retry again n call) (call s))
  unfolding retried
  outcome_after n s h = elim (Bool-cases (wants_more (call s))) [
    | inl e ↦ simp e (later_calls n s e (retry again n call (call s).0) h)
    | inr e ↦ simp e (0, omega arith, refl, λ j below. absurd (omega arith), inr e)
  ]

-- `retry.Do` calls a first time and at most the number of further attempts; it ends with the first
-- call whose outcome is not an error that is worth another attempt, or with the last one allowed.
pub retry-RetryOutcome :
    {S A : Type 0} (again : S → A → Bool) (call : S → S × A) (n : ℕ) (s : S)
    → RetryOutcome again call n s (retry again n call s)
unfolding retry
retry-RetryOutcome again call zero s =
    (0, omega arith, refl, λ j below. absurd (omega arith), inl refl)
retry-RetryOutcome again call (suc n) s =
    outcome_after again call n s (retry-RetryOutcome again call n (call s).0)
