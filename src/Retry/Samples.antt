-- ===== src/Retry/Samples.antt =====
-- Runs of the retries: a registry that answers with 503 at first, and one that refuses the
-- credentials. The state counts the calls.
use modctl.Prelude.{ℕ, zero, suc, ◌+◌, ◌≡◌, refl, Bool, false, Option, none, some}
use modctl.Retry.{further_attempts, worth_retrying, retry, retried, is_auth_error}

again : ℕ → Option ℕ → Bool
unfolding worth_retrying
again n none = false
again n (some status) = worth_retrying (some status)

busy_twice : ℕ → ℕ × Option ℕ
busy_twice zero = (1, some 503)
busy_twice (suc zero) = (2, some 503)
busy_twice (suc (suc n)) = (n + 3, none)

abbrev refusing : ℕ → ℕ × Option ℕ
refusing n = (n + 1, some 401)

third_call_ends : retry again further_attempts busy_twice 0 ≡ (3, none)
unfolding retry retried again busy_twice worth_retrying is_auth_error
third_call_ends = refl

refused_at_once : retry again further_attempts refusing 0 ≡ (1, some 401)
unfolding retry retried again worth_retrying is_auth_error
refused_at_once = refl
