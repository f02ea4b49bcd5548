-- ===== src/Multicast/Batch.antt =====
-- `MulticastManager.multicast` of core/policystore/multicast/manager.go: the queued policies are
-- drained into one gossip message, which is signed and sent to each recipient.
-- Marshalling and signing (protobuf, Ifrit) are the record `Wire`.
pub mod Laws
use lohpi.Common.{
  nil_argument, Outcome, ok, err, panic, ◌>>=◌, ℕ, ◌+◌, ◌%◌, ◌^◌, String, Option, none, some, List,
  [], ◌∷◌, ◌++◌, map,
}
use lohpi.Proto.{Policy}
use lohpi.Multicast.Members.{MessageMode, Count, get_message_recipients}

-- `gossipChunk` holds `&p`: before Go 1.22 the loop has one variable `p` for all its rounds
pub data Pointer : Type 0 where
  loop_variable : Pointer

-- what a pointer into the loop's frame points at
pub record Frame : Type 0 where
  pub p : Policy

abbrev pub deref : Frame → Pointer → Policy
deref f loop_variable = f.p

-- GossipMessage, with the fields that differ between two batches
pub record GossipMessage : Type 0 where
  pub sequence_number : ℕ  -- the 32-bit pattern of the int32
  pub bodies : List Policy

-- signatures are pairs of byte strings; `none` is the error result
pub record Wire : Type 1 where
  pub Bytes : Type 0
  pub marshal : GossipMessage → Option Bytes
  pub sign : Bytes → Option (List ℕ × List ℕ)
  pub marshal_signed : GossipMessage → List ℕ × List ℕ → Option Bytes

pub record MulticastManager : Type 0 where
  pub policy_chan : List Policy
  pub direct_recipients : Count
  pub sequence_number : ℕ

pub record Config : Type 0 where
  pub mode : MessageMode
  pub members : List String

-- `submitPolicyForDistribution`: the policy enters the channel at its end
unfoldable pub submit_policy : Policy → MulticastManager → MulticastManager
submit_policy p m = record m { policy_chan = m.policy_chan ++ p ∷ [] }

-- `for p := range m.PolicyChan { … }`: one round receives a policy into `p`, appends `&p`, and
-- breaks when the channel is empty
drain_loop : List Policy → Frame → List Pointer → Frame × List Pointer
drain_loop [] frame chunks = (frame, chunks)
drain_loop (q ∷ chan) frame chunks =
    drain_loop chan (record { p = q }) (chunks ++ loop_variable ∷ [])

-- the pointers are read when the message is marshalled, after the loop
gossip_message : ℕ → Frame × List Pointer → GossipMessage
gossip_message n (frame, chunks) = record { sequence_number = n; bodies = map (deref frame) chunks }

-- a failure to marshal or to sign panics
unfoldable pub seal : (wire : Wire) → GossipMessage → Outcome wire.Bytes
seal wire msg = elim (wire.marshal msg) [
  | none ↦ panic
  | some unsigned ↦ elim (wire.sign unsigned) [
    | none ↦ panic
    | some rs ↦ elim (wire.marshal_signed msg rs) [ none ↦ panic | some data' ↦ ok data' ]
  ]
]

-- the messages that were handed to `SendTo`, one for each recipient
pub send_all : {Bytes : Type 0} → Bytes → List String → List (String × Bytes)
send_all bytes [] = []
send_all bytes (r ∷ recipients) = (r, bytes) ∷ send_all bytes recipients

-- the frame of the loop before its first round
start_frame : Policy → Frame
start_frame q = record { p = q }

batch_of : Policy → List Policy → ℕ → GossipMessage
unfolding drain_loop gossip_message start_frame
batch_of q chan n = gossip_message n (drain_loop (q ∷ chan) (start_frame q) [])

multicast_to :
    (wire : Wire)
    → Policy
    → List Policy
    → MulticastManager
    → List String
    → MulticastManager × Outcome (List (String × wire.Bytes))
unfolding batch_of seal send_all
multicast_to wire q chan m recipients =
    let n = (m.sequence_number + 1) % 2 ^ 32 in
    (
      record m { policy_chan = []; sequence_number = n },
      seal wire (batch_of q chan n) >>= λ bytes. ok (send_all bytes recipients),
    )

multicast_with :
    (wire : Wire)
    → List Policy
    → MulticastManager
    → Outcome (List String)
    → MulticastManager × Outcome (List (String × wire.Bytes))
unfolding multicast_to
multicast_with wire [] m recipients = (m, ok [])
multicast_with wire (q ∷ chan) m (err e) = (m, err e)
multicast_with wire (q ∷ chan) m panic = (m, panic)
multicast_with wire (q ∷ chan) m (ok recipients) = multicast_to wire q chan m recipients

unfoldable pub multicast :
    (wire : Wire)
    → (ℕ → List ℕ)
    → Option Config
    → MulticastManager
    → MulticastManager × Outcome (List (String × wire.Bytes))
unfolding multicast_with
multicast wire perm none m = (m, err nil_argument)
multicast wire perm (some c) m =
    multicast_with wire m.policy_chan m
      (get_message_recipients perm c.members c.mode m.direct_recipients)
