-- ===== src/Membership/Tests.antt =====
-- The membership manager over a table in memory.
use lohpi.Common.{ℕ, ◌≡◌, refl, ◌≢◌, none, some, List, [], ◌∷◌}
use lohpi.Proto.{Node}
use lohpi.Extern.Memory.{memory_table}
use lohpi.Membership.{Row, Services, network_node}
use lohpi.Membership.Reload.{
  Call, add, remove, IsReliable, rows_of, with_database, run, table_keeps_first_node,
}

abbrev in_memory : Services
in_memory = record { table = memory_table Row; timestamp_text = λ t. [] }

some-ne-none {ℓ} : {A : Type ℓ} (a : A) → some a ≢ none
some-ne-none a h = cc

in_memory-IsReliable : IsReliable in_memory
unfolding memory_table
in_memory-IsReliable = record {
  insert_answers = λ db k r. some-ne-none _;
  delete_answers = λ db k. some-ne-none _;
}

abbrev node_on : ℕ → Node
node_on port = record {
  name = "a";
  ifrit_address = "127.0.0.1:5000";
  id = [];
  https_address = "127.0.0.1";
  port = port;
  boot_time = none;
}

empty_table : in_memory.table.Db
unfolding memory_table
empty_table = []

empty_row : in_memory.table.row empty_table "a" ≡ none
unfolding empty_table memory_table
empty_row = refl

-- the node moves from port 9000 to port 9001
abbrev calls : List Call
calls = add "a" (node_on 9000) ∷ add "b" (node_on 1) ∷ remove "b" ∷ add "a" (node_on 9001) ∷ []

table_keeps_first_node_example :
    let s = run in_memory calls (with_database in_memory [] empty_table) in
    (network_node "a" s.nodes_map ≡ some (node_on 9001))
    × ((db' : in_memory.table.Db) × (s.network_node_db ≡ some db')
        × (in_memory.table.row db' "a" ≡ rows_of in_memory (some (node_on 9000))))
table_keeps_first_node_example =
    table_keeps_first_node in_memory in_memory-IsReliable calls empty_table "a"
      (refl, (refl, (refl, (refl, tt)))) empty_row
