-- ===== src/Retry.antt =====
-- pkg/backend/retry.go: which errors of the registry are worth another attempt. `retry.Do` of
-- avast/retry-go is modelled by its documentation; the time that it waits is left out.
use modctl.Prelude.{false, ℕ, zero, suc, Bool, not, ◌||◌, Option, none, some, ◌==◌, if◌then◌else◌}
pub mod Rule
pub mod Bounded
mod Samples

-- `isAuthError`, of the status of the registry's response in the error, if there is one.
unfoldable pub is_auth_error : Option ℕ → Bool
is_auth_error none = false
is_auth_error (some status) = status == 401 || status == 403

-- `retry.Attempts`, less the first one.
abbrev pub further_attempts : ℕ
further_attempts = 5

-- Whether a call that ends in an error is worth another attempt: `retry.RetryIf`.
unfoldable pub worth_retrying : Option ℕ → Bool
unfolding is_auth_error
worth_retrying status = not (is_auth_error status)

-- `retry.Do`. `again` tells of a state and of the outcome of a call that led there whether it is an
-- error that is worth another attempt.
module _ {S A : Type 0} (again : S → A → Bool) where
  unfoldable pub retried : (S → S × A) → S × A → S × A
  retried next (s, a) = if again s a then next s else (s, a)

  unfoldable pub retry : ℕ → (S → S × A) → S → S × A
  unfolding retried
  retry zero call s = call s
  retry (suc n) call s = retried (retry n call) (call s)
