-- ===== src/Flow/Distribution/Tests.antt =====
-- A batch of the policy store at a node, over services in memory.
use lohpi.Common.{ℕ, String, true, Option, some, List, [], ◌∷◌}
use lohpi.Proto.{Timestamp, Policy}
use lohpi.Multicast.Members.{random_members, at}
use lohpi.Multicast.Batch.{GossipMessage, Wire, MulticastManager, Config}

abbrev noon : Timestamp
noon = record { seconds = 12; nanos = 5 }

-- the encoded gossip message is the message
plain_wire : Wire
plain_wire = record {
  Bytes = GossipMessage;
  marshal = λ msg. some msg;
  sign = λ bytes. some ([], []);
  marshal_signed = λ msg rs. some msg;
}

unseal : plain_wire.Bytes → Option GossipMessage
unfolding plain_wire
unseal bytes = some bytes

abbrev policy_for : String → Policy
policy_for k = record {
  dataset_identifier = k;
  content = true;
  version = 1;
  date_created = some noon;
  date_applied = some noon;
}

abbrev two_queued : MulticastManager
two_queued = record {
  policy_chan = policy_for "d" ∷ policy_for "e" ∷ [];
  direct_recipients = at 1;
  sequence_number = 0;
}

abbrev to_random : Config
to_random = record { mode = random_members; members = "10.0.0.1:5000" ∷ [] }

abbrev in_order : ℕ → List ℕ
in_order n = 0 ∷ []
