-- ===== src/LookupService/Tests.antt =====
-- The lookup service over services in memory.
use lohpi.Common.{codes, ok, String, ◌≡◌, refl, ◌≢◌, Option, none, some, List, [], ◌∷◌}
use lohpi.Proto.{Timestamp, Node}
use lohpi.Timestamp.{to_timestamppb}
use lohpi.Extern.{is_some}
use lohpi.Extern.Memory.{memory_table, memory_redis, plain_codec}
use lohpi.LookupService.{Row, Services, State, to_row, from_row, dataset_node, dataset_node_exists}
use lohpi.LookupService.Refinement.{
  Call, insert, remove, exists, spec, IsReliable, Readable, run, Represents,
}
use lohpi.LookupService.Reads.{service_refines_map}

abbrev boot : Timestamp
boot = record { seconds = 12; nanos = 5 }

abbrev in_memory : Services
in_memory = record {
  Bytes = Node;
  table = memory_table Row;
  redis = memory_redis Node;
  codec = plain_codec Node;
  timestamp_text = λ t. codes "seconds:12 nanos:5";
}

abbrev node_a : Node
node_a = record {
  name = "a";
  ifrit_address = "127.0.0.1:5000";
  id = [];
  https_address = "127.0.0.1";
  port = 9000;
  boot_time = some boot;
}

some-ne-none {ℓ} : {A : Type ℓ} (a : A) → some a ≢ none
some-ne-none a h = cc

in_memory-IsReliable : IsReliable in_memory
unfolding memory_table memory_redis plain_codec
in_memory-IsReliable = record {
  set_answers = λ m k b. some-ne-none _;
  del_answers = λ m k. some-ne-none _;
  marshal_answers = λ n. some-ne-none n;
  upsert_answers = λ db k r. some-ne-none _;
  delete_answers = λ db k. some-ne-none _;
  select_answers = λ db k. some-ne-none _;
  exists_answers = λ db k. some-ne-none _;
}

node_a-Readable : Readable in_memory node_a
unfolding from_row to_row to_timestamppb
node_a-Readable = refl

empty_map : String → Option Node
empty_map k = none

fresh : State in_memory
unfolding memory_table memory_redis
fresh = record { cache = some []; db = [] }

fresh-Represents : Represents in_memory fresh empty_map
unfolding fresh empty_map memory_table memory_redis
fresh-Represents = record { rows = λ j. refl; cached = λ j b h. cc; readable = λ j. tt }

abbrev calls : List Call
calls = insert "d1" node_a ∷ exists "d1" ∷ insert "d2" node_a ∷ remove "d2" ∷ []

service_refines_map_example :
    (dataset_node in_memory (run in_memory calls fresh) "d1" ≡ ok (spec calls empty_map "d1"))
    × ((dataset_node_exists in_memory "d1" (run in_memory calls fresh)).1
        ≡ ok (is_some (spec calls empty_map "d1")))
service_refines_map_example =
    service_refines_map in_memory in_memory-IsReliable calls fresh empty_map "d1"
      (node_a-Readable, (tt, (node_a-Readable, (tt, tt)))) fresh-Represents refl
