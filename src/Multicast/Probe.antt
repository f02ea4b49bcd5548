-- ===== src/Multicast/Probe.antt =====
-- `probeManager` of core/policystore/multicast/probe.go: rounds of probing that adjust how many
-- members are addressed (sigma) and how long the store waits for acknowledgments (tau).
-- Floating-point arithmetic is the record `Levels`.
pub mod Params
pub mod Session
use lohpi.Common.{
  ltb, leb, ◌==◌, if◌then◌else◌, invalid_mode, Outcome, ok, err, ℕ, ◌*◌, ◌%◌, ◌^◌, String, Bool,
  true, false, ◌&&◌, Option, none, some, List, [], ◌∷◌, str_eq,
}
use lohpi.Proto.{Probe}
use lohpi.Multicast.Members.{MessageMode, lru_members}

-- acceptance levels are float64 values: `n_acceptance n a` is int(math.Ceil(float64(n) * a)) and
-- `half_ceil a n` is int(math.Ceil((a * float64(n)) / 2))
pub record Levels : Type 1 where
  pub Level : Type 0
  pub zero_level : Level
  pub n_acceptance : ℕ → Level → ℕ
  pub half_ceil : Level → ℕ → ℕ

-- time.Duration(1 * time.Hour) in nanoseconds
abbrev pub hour : ℕ
hour = 3_600_000_000_000

-- `*tau *= 2`, on the 64-bit pattern of the int64
abbrev pub double_duration : ℕ → ℕ
double_duration tau = (tau * 2) % 2 ^ 64

-- the doubling of tau, with its upper bound of one hour; a pattern from 2^63 up is negative
pub increase_tau : ℕ → ℕ
increase_tau tau =
    let doubled = double_duration tau in
    if leb hour doubled && ltb doubled (2 ^ 63) then hour else doubled

-- `increaseProbeParameters`: `bound` is ceil((phi * n) / 2), n the number of members
unfoldable pub increase_probe_parameters : ℕ → ℕ → ℕ × ℕ → ℕ × ℕ
unfolding increase_tau
increase_probe_parameters bound n (tau, sigma) =
    if ltb sigma bound
    then (tau, if ltb bound (sigma * 2) then bound else sigma * 2)
    else if sigma == bound
    then (increase_tau tau, sigma)
    else if ltb 4 n
    then (increase_tau tau, 1)
    else (tau, sigma)

-- `probeRoundRecipients`: the modes that it knew are commented out
pub probe_round_recipients : MessageMode → Outcome (List String)
probe_round_recipients lru_members = ok []
probe_round_recipients _ = err invalid_mode

pub record AckRound : Type 0 where
  pub acktable : List (String × Probe)
  pub multicast_interval : ℕ
  pub multicast_direct_recipients : ℕ
  pub mode : MessageMode
  pub order : ℕ  -- uint32
  pub recipients : List String

-- `acktable[sender] = probe`
pub put_ack : String → Probe → List (String × Probe) → List (String × Probe)
put_ack k p [] = (k, p) ∷ []
put_ack k p ((j, v) ∷ m) = if str_eq j k then (j, p) ∷ m else (j, v) ∷ put_ack k p m

-- bytes.Compare(a, b) == 0
pub same_bytes : List ℕ → List ℕ → Bool
same_bytes [] [] = true
same_bytes (a ∷ as_) (b ∷ bs) = a == b && same_bytes as_ bs
same_bytes _ _ = false

-- an acknowledgment: GetSender().GetName() and GetProbe() of the message
abbrev pub Ack : Type 0
Ack = String × Option Probe

-- GetOrder and GetSessionId are safe on a nil probe
pub is_valid_acknowledgment : Option Probe → List ℕ → ℕ → Bool
unfolding same_bytes
is_valid_acknowledgment none session order = 0 == order && same_bytes [] session
is_valid_acknowledgment (some p) session order = p.order == order && same_bytes p.session_id session

-- what the map holds for a nil probe reads as the zero probe
abbrev pub probe_value : Option Probe → Probe
probe_value none = record { order = 0; session_id = [] }
probe_value (some p) = p

pub data Signal : Type 0 where
  ack_timer stop_ack : Signal

-- what reaches the prober while it waits in one round
pub record RoundEvents : Type 0 where
  pub acks : List Ack
  pub signal : Signal
