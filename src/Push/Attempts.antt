-- ===== src/Push/Attempts.antt =====
-- How often a push of one content is tried.
use modctl.Prelude.{ℕ, ◌≡◌, ◌≢◌, ◌⊎◌, Bool, true, false, Option, some, Text}
use modctl.Transfer.{Descriptor}
use modctl.Retry.Bounded.{nth_call}
use modctl.Push.{World, again, push_if_not_exist}

-- The registry has refused the credentials.
abbrev pub IsRefused : Option ℕ → Type 0
IsRefused status = (status ≡ some 401) ⊎ (status ≡ some 403)

module _ (w : World) (tag raw : Text) (desc : Descriptor) (s : w.State) where
  -- The outcome of one of the calls in a row, the first with 0.
  abbrev pub attempt : ℕ → w.State × Bool
  attempt k = nth_call (again w) (push_if_not_exist w tag raw desc) k s

  -- It fails, and not because the credentials are refused.
  abbrev pub IsTransient : w.State × Bool → Type 0
  IsTransient (t, done) =
      (done ≡ false) × (w.last_status t ≢ some 401) × (w.last_status t ≢ some 403)

  -- It ends well, or because the credentials are refused.
  abbrev pub IsFinal : w.State × Bool → Type 0
  IsFinal (t, done) = (done ≡ true) ⊎ IsRefused (w.last_status t)
