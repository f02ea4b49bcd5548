-- ===== src/Multicast/Tests.antt =====
-- The multicast package at concrete inputs.
use lohpi.Common.{
  if◌then◌else◌, length, take, empty_members, ok, err, ℕ, zero, suc, ◌+◌, ◌-◌, ◌/◌, String, ◌≡◌,
  refl, ap, Bool, true, false, ◌&&◌, not, none, some, List, [], ◌∷◌,
}
use lohpi.Multicast.Probe.Session.Laws.{Consistent, Returned, probe_network-Consistent}
use lohpi.Proto.{Policy}
use lohpi.Multicast.Members.{
  lru_members, random_members, at, MembershipManager, all_members, set_ignored_ifrit_nodes,
  lookup_count, update_lru_members, adjust_recipients, random_members_of, get_message_recipients,
}
use lohpi.Multicast.Members.Laws.{
  random_members_of-eq-take, listed, or_zero, lookup_count-update_lru_members, occurrences,
  occurrences-all_members,
}
use lohpi.Multicast.Batch.{Wire, MulticastManager, Config, multicast}
use lohpi.Multicast.Batch.Laws.{multicast_error_keeps_queue}
use lohpi.Multicast.Probe.{Levels, ack_timer, RoundEvents}
use lohpi.Multicast.Probe.Session.{MulticastConfig, ProbeManager, Verdict, finished, probe_network}

-- a drawing that always gives the largest position first
abbrev downward : ℕ → List ℕ
downward zero = []
downward (suc n) = n ∷ downward n

downward-length : (n : ℕ) → length (downward n) ≡ n
downward-length zero = refl
downward-length (suc n) = ap suc (downward-length n)

abbrev three : List String
three = "a" ∷ "b" ∷ "c" ∷ []

random_members_of-eq-take_example :
    random_members_of downward three (at 2)
    ≡ ok (take (adjust_recipients (length three) (at 2)) three)
random_members_of-eq-take_example =
    random_members_of-eq-take downward three (at 2) downward-length (λ h. cc)

-- the drawing 1, 0 still picks "a" and then "b"
picks_prefix : random_members_of downward three (at 2) ≡ ok ("a" ∷ "b" ∷ [])
unfolding random_members_of
picks_prefix = refl

abbrev counted : MembershipManager
counted = record { lru_nodes_map = ("a", 3) ∷ ("x", 1) ∷ []; ignored_ip_addresses = "b" ∷ [] }

lookup_count-update_lru_members_example :
    lookup_count "c" (update_lru_members three counted).lru_nodes_map ≡ (
      if listed "c" three && not (listed "c" counted.ignored_ip_addresses)
      then some (or_zero (lookup_count "c" counted.lru_nodes_map))
      else none)
lookup_count-update_lru_members_example = lookup_count-update_lru_members three counted "c"

occurrences-all_members_example :
    occurrences "b"
      (all_members (set_ignored_ifrit_nodes ("b" ∷ []) counted).ignored_ip_addresses three)
    ≡ (if listed "b" ("b" ∷ []) then 0 else occurrences "b" three)
occurrences-all_members_example = occurrences-all_members ("b" ∷ []) three counted "b"

abbrev policy_of : String → Bool → Policy
policy_of id content = record {
  dataset_identifier = id;
  content = content;
  version = 1;
  date_created = none;
  date_applied = none;
}

abbrev wire : Wire
wire = record {
  Bytes = List ℕ;
  marshal = λ msg. some (msg.sequence_number ∷ []);
  sign = λ bytes. some (bytes, []);
  marshal_signed = λ msg rs. some (length msg.bodies ∷ rs.0);
}

abbrev queue : MulticastManager
queue = record {
  policy_chan = policy_of "d1" true ∷ policy_of "d2" false ∷ [];
  direct_recipients = at 1;
  sequence_number = 4_294_967_295;
}

abbrev to_random : Config
to_random = record { mode = random_members; members = three }

abbrev to_nobody : Config
to_nobody = record { mode = random_members; members = [] }

no_members : (multicast wire downward (some to_nobody) queue).1 ≡ err empty_members
unfolding multicast get_message_recipients
no_members = refl

multicast_error_keeps_queue_example : (multicast wire downward (some to_nobody) queue).0 ≡ queue
multicast_error_keeps_queue_example =
    multicast_error_keeps_queue wire downward (some to_nobody) queue empty_members no_members

-- an acceptance level counts the acknowledgments that are missing
abbrev levels : Levels
levels = record {
  Level = ℕ;
  zero_level = 0;
  n_acceptance = λ n missing. n - missing;
  half_ceil = λ missing n. (n - missing + 1) / 2;
}

abbrev start_config : MulticastConfig ℕ
start_config = record {
  multicast_direct_recipients = 1;
  multicast_interval = 1_000_000_000;
  acceptance_level = 1;
}

abbrev idle : ProbeManager ℕ
idle = record {
  is_probing = false;
  prb_config = record { acceptance_level = 0; session_id = []; num_members = 0 };
  rounds = [];
}

abbrev ack_of : ℕ → RoundEvents
ack_of order = record {
  acks = ("a", some (record { order = order; session_id = 7 ∷ [] })) ∷ ("b", none) ∷ [];
  signal = ack_timer;
}

abbrev three_rounds : List (Bool × RoundEvents)
three_rounds = (true, ack_of 1) ∷ (true, ack_of 2) ∷ (true, ack_of 3) ∷ []

abbrev session : ProbeManager ℕ × Verdict ℕ
session = probe_network levels three_rounds lru_members (7 ∷ []) 2 start_config idle

abbrev new_parameters : MulticastConfig ℕ
new_parameters = record {
  multicast_direct_recipients = 1;
  multicast_interval = 1_000_000_000;
  acceptance_level = 0;
}

session_finishes : session ≡ (session.0, finished new_parameters)
unfolding probe_network
session_finishes = refl

probe_network-Consistent_example :
    Consistent levels
      (record { acceptance_level = 1; session_id = 7 ∷ []; num_members = 2 })
      3
      session.0.rounds
    × Returned levels new_parameters session.0.rounds
    × (session.0.is_probing ≡ false)
probe_network-Consistent_example =
    probe_network-Consistent levels three_rounds lru_members (7 ∷ []) 2 start_config new_parameters
      idle session.0 session_finishes
