-- ===== src/Directory/Tests.antt =====
-- The directory server over services in memory.
use lohpi.Common.{
  if◌then◌else◌, codes, ok, ℕ, String, ◌≡◌, refl, ◌≢◌, Bool, true, false, Option, none, some, List,
  [], ◌∷◌, str_eq,
}
use lohpi.Proto.{Node}
use lohpi.Timestamp.{to_timestamppb}
use lohpi.Extern.Memory.{memory_table, memory_redis, plain_codec}
use lohpi.LookupService.{Row, Services, State, to_row, from_row, dataset_node, dataset_identifiers}
use lohpi.LookupService.Refinement.{IsReliable, Readable, rows_of, ReadableNode, Represents}
use lohpi.Directory.{
  Message, policy_revocation_update, is_listed, DirectoryState, resolve_dataset_identifiers_deltas,
  handle_all,
}
use lohpi.Directory.Revocation.{last_update, is_listed-handle_all}
use lohpi.Directory.Resolve.{resolve_forgets_other_nodes}

abbrev some_date : List ℕ
some_date = codes "seconds:12 nanos:5"

abbrev in_memory : Services
in_memory = record {
  Bytes = Node;
  table = memory_table Row;
  redis = memory_redis Node;
  codec = plain_codec Node;
  timestamp_text = λ t. some_date;
}

abbrev node_named : String → Node
node_named name = record {
  name = name;
  ifrit_address = "127.0.0.1:5000";
  id = [];
  https_address = "127.0.0.1";
  port = 9000;
  boot_time = some (record { seconds = 12; nanos = 5 });
}

some-ne-none {ℓ} : {A : Type ℓ} (a : A) → some a ≢ none
some-ne-none a h = cc

in_memory-IsReliable : IsReliable in_memory
unfolding memory_table memory_redis plain_codec
in_memory-IsReliable = record {
  set_answers = λ m k b. some-ne-none _;
  del_answers = λ m k. some-ne-none _;
  marshal_answers = λ n. some-ne-none n;
  upsert_answers = λ db k r. some-ne-none _;
  delete_answers = λ db k. some-ne-none _;
  select_answers = λ db k. some-ne-none _;
  exists_answers = λ db k. some-ne-none _;
}

node-Readable : (name : String) → Readable in_memory (node_named name)
unfolding from_row to_row to_timestamppb
node-Readable name = refl

-- node a stores d
at_a : String → Option Node
at_a k = if str_eq "d" k then some (node_named "a") else none

only_d : State in_memory
unfolding memory_table memory_redis to_row
only_d = record { cache = none; db = ("d", to_row in_memory (node_named "a")) ∷ [] }

row_of_d :
    (b : Bool)
    → (if b then some (to_row in_memory (node_named "a")) else none)
      ≡ rows_of in_memory (if b then some (node_named "a") else none)
row_of_d true = refl
row_of_d false = refl

readable_d : (b : Bool) → ReadableNode in_memory (if b then some (node_named "a") else none)
readable_d true = node-Readable "a"
readable_d false = tt

only_d-Represents : Represents in_memory only_d at_a
unfolding only_d at_a memory_table memory_redis
only_d-Represents = record {
  rows = λ j. row_of_d (str_eq "d" j);
  cached = tt;
  readable = λ j. readable_d (str_eq "d" j);
}

-- node b names e, and a's dataset d is forgotten
d_is_forgotten :
    (if is_listed ("e" ∷ []) "d"
      then some (node_named "b")
      else if is_listed (dataset_identifiers in_memory only_d) "d"
      then none
      else at_a "d")
    ≡ none
unfolding is_listed dataset_identifiers only_d memory_table
d_is_forgotten = refl

resolve_forgets_other_nodes_example :
    dataset_node in_memory
      (resolve_dataset_identifiers_deltas in_memory
        (some ("e" ∷ []))
        (some (node_named "b"))
        only_d).0
      "d"
    ≡ ok (
        if is_listed ("e" ∷ []) "d"
        then some (node_named "b")
        else if is_listed (dataset_identifiers in_memory only_d) "d"
        then none
        else at_a "d")
resolve_forgets_other_nodes_example =
    resolve_forgets_other_nodes in_memory in_memory-IsReliable ("e" ∷ []) (node_named "b") only_d
      at_a "d" (node-Readable "b") only_d-Represents refl

abbrev updates : List Message
updates =
    policy_revocation_update "d" false
    ∷ policy_revocation_update "e" false
    ∷ policy_revocation_update "d" true
    ∷ []

abbrev directory : DirectoryState in_memory
directory = record { lookup = only_d; invalidated_datasets = [] }

is_listed-handle_all_example :
    is_listed (handle_all in_memory updates directory).invalidated_datasets "e"
    ≡ last_update "e" updates (is_listed [] "e")
is_listed-handle_all_example = is_listed-handle_all in_memory updates directory "e"
