-- ===== src/Membership/Load.antt =====
-- `dbGetAllNetworkNodes` and `reloadMaps` of core/membershipmanager: the map of the nodes is read
-- from the table when the program starts.
mod Tests
use lohpi.Common.{
  if◌then◌else◌, All, sql_error, Outcome, ok, err, panic, ◌>>=◌, or_err, entry_of, ℕ, String, ◌≡◌,
  Option, none, some, List, [], ◌∷◌,
}
use lohpi.Proto.{Timestamp, Node}
use lohpi.Extern.{is_some}
use lohpi.Timestamp.{is_digit, find_all, parse_int, from_unix}
use lohpi.Membership.{Row, Services, lookup_node, put_node, MembershipState}
use lohpi.Membership.Reload.{stored}

-- the first two runs of digits; neither index is guarded
abbrev pub boot_of_runs : List (List ℕ) → Outcome Timestamp
boot_of_runs [] = panic
boot_of_runs (secs ∷ []) = panic
boot_of_runs (secs ∷ nanos ∷ _) = do
  seconds ← parse_int secs
  nanoseconds ← parse_int nanos
  ok (from_unix seconds nanoseconds)

unfoldable pub boot_time_of : List ℕ → Outcome Timestamp
unfolding find_all parse_int from_unix is_digit
boot_time_of text = boot_of_runs (find_all text)

-- the node of a row
abbrev pub node_of_row : String → Row → Timestamp → Node
node_of_row node_id r boot = record {
  name = node_id;
  ifrit_address = r.ip_address;
  id = r.public_id;
  https_address = r.https_address;
  port = r.port;
  boot_time = some boot;
}

abbrev pub Nodes : Type 0
Nodes = List (String × Option Node)

-- a row whose numbers are too large is passed over
abbrev pub add_row :
    (Nodes → Outcome Nodes) → Nodes → String → Row → Outcome Timestamp → Outcome Nodes
add_row rest nodes k r (ok boot) = rest (put_node k (some (node_of_row k r boot)) nodes)
add_row rest nodes k r (err e) = rest nodes
add_row rest nodes k r panic = panic

-- the loop over the rows
unfoldable pub read_rows : List (String × Row) → Nodes → Outcome Nodes
unfolding boot_time_of put_node
read_rows [] nodes = ok nodes
read_rows ((k, r) ∷ rows) nodes = add_row (read_rows rows) nodes k r (boot_time_of r.boottime)

module _ (ext : Services) (select_all : ext.table.Db → Option (List (String × Row))) where
  open ext use {table}

  -- `dbGetAllNetworkNodes`
  unfoldable pub db_get_all_network_nodes : table.Db → Outcome Nodes
  unfolding read_rows
  db_get_all_network_nodes db = or_err sql_error (select_all db) >>= λ rows. read_rows rows []

  -- `reloadMaps` of a unit with a database
  unfoldable pub reload_maps : table.Db → Outcome (MembershipState ext)
  unfolding db_get_all_network_nodes
  reload_maps db = db_get_all_network_nodes db >>= λ nodes.
      ok (record { nodes_map = nodes; network_node_db = some db })

  -- a listed row is one of the table, and its boot time can be read
  abbrev pub IsListed : table.Db → (String → Timestamp) → String × Row → Type 0
  IsListed db times (k, r) = (table.row db k ≡ some r) × (boot_time_of r.boottime ≡ ok (times k))

  -- the query lists the rows of the table, and their boot times can be read
  pub record Lists (db : table.Db) (times : String → Timestamp) (rows : List (String × Row))
      : Type 0 where
    pub selected : select_all db ≡ some rows
    pub of_table : All (IsListed db times) rows
    pub complete : (k : String) → entry_of k rows ≡ none → table.row db k ≡ none

  abbrev pub loaded : (String → Timestamp) → String → Option Row → Option Node
  loaded times k none = none
  loaded times k (some r) = some (node_of_row k r (times k))

  -- what the loop leaves under a name
  abbrev pub Left :
      table.Db
      → (String → Timestamp)
      → String
      → Option Row
      → Option (Option Node)
      → Outcome Nodes
      → Type 0
  Left db times k listed before result =
      (nodes : Nodes) × (result ≡ ok nodes)
      × (lookup_node k nodes
          ≡ (if is_some listed then stored (loaded times k (table.row db k)) else before))
