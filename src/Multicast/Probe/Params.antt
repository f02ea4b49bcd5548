-- ===== src/Multicast/Probe/Params.antt =====
-- The search for sigma and tau.
use lohpi.Common.{ℕ, zero, suc, ◌+◌, ◌-◌, ◌≤◌, ◌<◌}
use lohpi.Multicast.Probe.{hour}

abbrev pub iterate : ℕ → (ℕ × ℕ → ℕ × ℕ) → ℕ × ℕ → ℕ × ℕ
iterate zero f s = s
iterate (suc k) f s = iterate k f (f s)

-- what is left of the way to the largest parameters
abbrev gap : ℕ → ℕ × ℕ → ℕ
gap bound (tau, sigma) = (bound - sigma) + (hour - tau)

-- both parameters are positive and within their bounds
abbrev pub InRange : ℕ → ℕ × ℕ → Type 0
InRange bound (tau, sigma) = (0 < sigma) × (sigma ≤ bound) × (0 < tau) × (tau ≤ hour)
