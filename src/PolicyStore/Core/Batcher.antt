-- ===== src/PolicyStore/Core/Batcher.antt =====
-- `RunPolicyBatcher` of core/policystore/policy.go, over what its select may receive.
use mathlib.Core.List.{append_assoc, append-nil}
use lohpi.Common.{
  All, Outcome, ok, err, panic, ℕ, String, ◌≡◌, refl, Bool, true, false, some, List, [], ◌∷◌, ◌++◌,
}
use lohpi.Proto.{Policy}
use lohpi.Multicast.Members.{random_members}
use lohpi.Multicast.Batch.{Wire, MulticastManager, submit_policy, multicast}

-- A policy that enters the channel, a timer that fires while `IsProbing` is so, or the end. The
-- recipients of the batch depend on the permutation and on the addresses of the members.
pub data Event : Type 0 where
  submitted : Policy → Event
  fired : Bool → (ℕ → List ℕ) → List String → Event
  stopped : Event

-- the manager, and the messages that were sent; `none` after a panic
abbrev pub Batching : Type 0 → Type 0
Batching Bytes = MulticastManager × List (String × Bytes) × Outcome (Unit {0})

-- an error of `Multicast` is logged
abbrev pub sent_batch :
    {Bytes : Type 0}
    → (MulticastManager → List (String × Bytes) → Batching Bytes)
    → List (String × Bytes)
    → MulticastManager × Outcome (List (String × Bytes))
    → Batching Bytes
sent_batch rest sent (m, ok messages) = rest m (sent ++ messages)
sent_batch rest sent (m, err e) = rest m sent
sent_batch rest sent (m, panic) = (m, sent, panic)

unfoldable pub run_policy_batcher :
    (wire : Wire) → List Event → MulticastManager → List (String × wire.Bytes) → Batching wire.Bytes
unfolding submit_policy
run_policy_batcher wire [] m sent = (m, sent, ok tt)
run_policy_batcher wire (submitted p ∷ events) m sent =
    run_policy_batcher wire events (submit_policy p m) sent
run_policy_batcher wire (fired true perm members ∷ events) m sent =
    run_policy_batcher wire events m sent
run_policy_batcher wire (fired false perm members ∷ events) m sent =
    sent_batch (run_policy_batcher wire events) sent
      (multicast wire perm (some (record { mode = random_members; members = members })) m)
run_policy_batcher wire (stopped ∷ events) m sent = (m, sent, ok tt)

-- the policies that enter the channel
abbrev pub submissions : List Event → List Policy
submissions [] = []
submissions (submitted p ∷ events) = p ∷ submissions events
submissions (_ ∷ events) = submissions events

-- a policy is submitted, or the timer fires during a probing session
abbrev pub IsHeld : Event → Type 0
IsHeld (submitted p) = Unit
IsHeld (fired true perm members) = Unit
IsHeld (fired false perm members) = ⊥
IsHeld stopped = ⊥

-- While a probing session runs, the batcher sends nothing and keeps every policy that is submitted,
-- in order; the first time that the timer fires after the session, one call of `Multicast` gets
-- them all, behind those that waited before.
pub probing_delays_batch :
    (wire : Wire) (events : List Event) (perm : ℕ → List ℕ) (members : List String)
    (m : MulticastManager) (sent : List (String × wire.Bytes))
    → All IsHeld events
    → run_policy_batcher wire (events ++ fired false perm members ∷ []) m sent
      ≡ sent_batch (run_policy_batcher wire []) sent (
          multicast wire perm
            (some (record { mode = random_members; members = members }))
            (record m { policy_chan = m.policy_chan ++ submissions events }))
unfolding run_policy_batcher submit_policy
probing_delays_batch wire [] perm members m sent held = rw (append-nil m.policy_chan) refl
probing_delays_batch wire (submitted p ∷ events) perm members m sent (_, held) =
    rw
      (
        probing_delays_batch wire events perm members (submit_policy p m) sent held,
        append_assoc m.policy_chan (p ∷ []) (submissions events),
      )
      refl
probing_delays_batch wire (fired true tick_perm tick_members ∷ events) perm members m sent
      (_, held) =
    probing_delays_batch wire events perm members m sent held
probing_delays_batch wire (fired false tick_perm tick_members ∷ events) perm members m sent
      (never, _) =
    absurd never
probing_delays_batch wire (stopped ∷ events) perm members m sent (never, _) = absurd never
