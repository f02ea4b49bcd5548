-- ===== src/PolicyStore/Core/Tests.antt =====
-- Requests and events at a policy store in memory.
use lohpi.Common.{◌≡◌, refl, inl, true, false, none, some, List, [], ◌∷◌, ◌++◌}
use lohpi.Proto.{Timestamp, Policy, empty_policy}
use lohpi.Streaming.Json.{at_end, more, JsonRequest, decode_json_body}
use lohpi.Extern.Memory.{memory_table, memory_redis}
use lohpi.PolicyStore.Memory.{texts_in, some_date, indexer, lookups}
use lohpi.PolicyStore.SetPolicy.{accepted, StoreState, set_object_policy}
use lohpi.PolicyStore.SetPolicy.Bodies.{
  PolicyBody, body_of, IsWellFormed, Unaccepted, ill_formed_request_changes_nothing,
}
use lohpi.Indexer.{dataset, set_dataset_policy}
use lohpi.LookupService.{dataset_node}
use lohpi.PolicyStore.Git.{git_store_policy}
use lohpi.Timestamp.{to_timestamppb}
use lohpi.Multicast.Members.{random_members, at}
use lohpi.Multicast.Batch.{GossipMessage, Wire, MulticastManager, multicast}
use lohpi.PolicyStore.Core.Batcher.{
  Event, submitted, fired, sent_batch, run_policy_batcher, submissions, probing_delays_batch,
}

abbrev noon : Timestamp
noon = record { seconds = 12; nanos = 5 }

-- the body has a second value behind the first
abbrev two_values : JsonRequest PolicyBody
two_values = record {
  content_type = "application/json";
  first = inl (record { policy = true });
  second = more;
}

two_values-IsWellFormed : (a : PolicyBody) → ¬ (IsWellFormed "application/json" a two_values)
two_values-IsWellFormed a (t, f, s) = cc

-- a store that has the dataset and knows its node
store_with_dataset : StoreState indexer lookups texts_in
unfolding memory_table memory_redis texts_in
store_with_dataset = record {
  datasets = record {
    cache = none;
    db =
        (
          "d",
          record {
            allow_multiple_checkout = false;
            policy_content = false;
            policy_version = 0;
            date_created = some_date;
            date_applied = some_date;
          },
        )
        ∷ [];
  };
  lookup = record {
    cache = none;
    db =
        (
          "d",
          record {
            node_id = "n";
            ip_address = "";
            public_id = [];
            https_address = "";
            port = 0;
            boottime = some_date;
          },
        )
        ∷ [];
  };
  work_tree = λ q. none;
  policy_chan = [];
}

-- the same object alone is accepted
one_value_accepted :
    (set_object_policy indexer lookups texts_in "d"
      (body_of (decode_json_body "application/json" (record two_values { second = at_end })))
      noon
      store_with_dataset).1
    ≡ accepted
unfolding set_object_policy decode_json_body dataset set_dataset_policy dataset_node
    git_store_policy store_with_dataset texts_in memory_table memory_redis to_timestamppb
one_value_accepted = refl

ill_formed_request_changes_nothing_example :
    Unaccepted indexer lookups texts_in store_with_dataset (
      set_object_policy indexer lookups texts_in "d"
        (body_of (decode_json_body "application/json" two_values))
        noon
        store_with_dataset)
ill_formed_request_changes_nothing_example =
    ill_formed_request_changes_nothing indexer lookups texts_in "d" noon store_with_dataset
      two_values two_values-IsWellFormed

abbrev wire : Wire
wire = record {
  Bytes = GossipMessage;
  marshal = λ msg. some msg;
  sign = λ bytes. some ([], []);
  marshal_signed = λ msg rs. some msg;
}

abbrev a_policy : Policy
a_policy = record empty_policy { dataset_identifier = "d"; version = 1 }

abbrev empty_queue : MulticastManager
empty_queue = record { policy_chan = []; direct_recipients = at 1; sequence_number = 0 }

abbrev while_probing : List Event
while_probing = submitted a_policy ∷ fired true (λ n. 0 ∷ []) [] ∷ submitted a_policy ∷ []

probing_delays_batch_example :
    run_policy_batcher wire
      (while_probing ++ fired false (λ n. 0 ∷ []) ("10.0.0.1:5000" ∷ []) ∷ [])
      empty_queue
      []
    ≡ sent_batch (run_policy_batcher wire []) [] (
        multicast wire
          (λ n. 0 ∷ [])
          (some (record { mode = random_members; members = "10.0.0.1:5000" ∷ [] }))
          (record empty_queue { policy_chan = [] ++ submissions while_probing }))
probing_delays_batch_example =
    probing_delays_batch wire while_probing (λ n. 0 ∷ []) ("10.0.0.1:5000" ∷ []) empty_queue []
      (tt, (tt, (tt, tt)))
