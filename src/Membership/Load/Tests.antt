-- ===== src/Membership/Load/Tests.antt =====
-- A program that starts again on a table in memory.
use lohpi.Common.{codes, ℕ, String, Option, none, some, List, [], ◌∷◌}
use lohpi.Proto.{Timestamp, Node}
use lohpi.Extern.Memory.{memory_table}
use lohpi.Membership.{Row, Services}
use lohpi.Membership.Reload.{Call, add}

abbrev dated : Services
dated = record { table = memory_table Row; timestamp_text = λ t. codes "seconds:12 nanos:5" }

abbrev node_on : ℕ → Node
node_on port = record {
  name = "a";
  ifrit_address = "127.0.0.1:5000";
  id = [];
  https_address = "127.0.0.1";
  port = port;
  boot_time = none;
}

empty_table : dated.table.Db
unfolding memory_table
empty_table = []

-- the node moves from port 9000 to port 9001
abbrev calls : List Call
calls = add "a" (node_on 9000) ∷ add "a" (node_on 9001) ∷ []

all_rows : dated.table.Db → Option (List (String × Row))
unfolding memory_table
all_rows db = some db

abbrev boot_row : Row
boot_row = record {
  ip_address = "127.0.0.1:5000";
  public_id = [];
  https_address = "127.0.0.1";
  port = 9000;
  boottime = codes "seconds:12 nanos:5";
}

last_table : dated.table.Db
unfolding memory_table
last_table = ("a", boot_row) ∷ []

abbrev booted : String → Timestamp
booted k = record { seconds = 12; nanos = 5 }
