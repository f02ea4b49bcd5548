-- ===== src/Membership.antt =====
-- `MembershipManagerUnit` of core/membershipmanager/membershipmanager.go and database.go: the known
-- nodes in a map, which is written through to a table of PostgreSQL where one is configured.
pub mod Reload
pub mod Load
mod Tests
use lohpi.Common.{
  if◌then◌else◌, nil_argument, empty_argument, sql_error, Outcome, ok, err, panic, or_err, ℕ,
  String, Bool, Option, none, some, List, [], ◌∷◌, str_eq,
}
use lohpi.Proto.{Timestamp, Node}
use lohpi.Timestamp.{to_timestamppb}
use lohpi.Extern.{is_some, Table}

-- a row of the membership table; the boot time is text
pub record Row : Type 0 where
  pub ip_address : String
  pub public_id : List ℕ
  pub https_address : String
  pub port : ℕ
  pub boottime : List ℕ

-- the table, and `Timestamp.String()` of protobuf
pub record Services : Type 1 where
  pub table : Table Row
  pub timestamp_text : Option Timestamp → List ℕ

-- the map of the nodes; a nil pointer may be stored under a name
unfoldable pub lookup_node : String → List (String × Option Node) → Option (Option Node)
lookup_node k [] = none
lookup_node k ((j, n) ∷ m) = if str_eq j k then some n else lookup_node k m

-- `m.nodesMap[k] = n`
unfoldable pub put_node :
    String → Option Node → List (String × Option Node) → List (String × Option Node)
put_node k n [] = (k, n) ∷ []
put_node k n ((j, v) ∷ m) = if str_eq j k then (j, n) ∷ m else (j, v) ∷ put_node k n m

-- `delete(m.nodesMap, k)`
unfoldable pub delete_node : String → List (String × Option Node) → List (String × Option Node)
delete_node k [] = []
delete_node k ((j, v) ∷ m) =
    let rest = delete_node k m in if str_eq j k then rest else (j, v) ∷ rest

abbrev pub node_at : Option (Option Node) → Option Node
node_at none = none
node_at (some n) = n

-- `NetworkNode`: nil where there is none
abbrev pub network_node : String → List (String × Option Node) → Option Node
network_node k m = node_at (lookup_node k m)

-- `NetworkNodeExists`
abbrev pub network_node_exists : String → List (String × Option Node) → Bool
network_node_exists k m = is_some (lookup_node k m)

module _ (ext : Services) where
  open ext use {table, timestamp_text}

  -- `networkNodeDB` is nil where no database is used
  pub record MembershipState : Type 0 where
    pub nodes_map : List (String × Option Node)
    pub network_node_db : Option table.Db

  -- the columns that `dbAddNetworkNode` writes
  unfoldable pub to_row : Node → Row
  to_row n = record {
    ip_address = n.ifrit_address;
    public_id = n.id;
    https_address = n.https_address;
    port = n.port;
    boottime = timestamp_text n.boot_time;
  }

  -- `dbAddNetworkNode`: a row that is there is kept
  unfoldable pub db_add_network_node : table.Db → String → Option Node → Outcome table.Db
  unfolding to_row
  db_add_network_node db node_id none =
      if str_eq node_id "" then err empty_argument else err nil_argument
  db_add_network_node db node_id (some n) =
      if str_eq node_id ""
      then err empty_argument
      else or_err sql_error (table.insert db node_id (to_row n))

  -- the new database, or the old one under an error
  abbrev pub with_db :
      MembershipState → table.Db → Outcome table.Db → MembershipState × Outcome (Unit {0})
  with_db s db (ok db') = (record s { network_node_db = some db' }, ok tt)
  with_db s db (err e) = (s, err e)
  with_db s db panic = (s, panic)

  -- `AddNetworkNode`: the map is written before the arguments are looked at
  unfoldable pub add_network_node :
      String → Option Node → MembershipState → MembershipState × Outcome (Unit {0})
  unfolding put_node db_add_network_node
  add_network_node node_id n s =
      let s' : MembershipState = record s { nodes_map = put_node node_id n s.nodes_map } in
      elim s.network_node_db [
        | none ↦ (s', ok tt)
        | some db ↦ with_db s' db (db_add_network_node db node_id n)
      ]

  unfoldable pub db_remove_network_node : table.Db → String → Outcome table.Db
  db_remove_network_node db node_id =
      if str_eq node_id ""
      then err empty_argument
      else elim (table.delete db node_id) [ none ↦ err sql_error | some (n, db') ↦ ok db' ]

  -- `RemoveNetworkNode`
  unfoldable pub remove_network_node :
      String → MembershipState → MembershipState × Outcome (Unit {0})
  unfolding delete_node db_remove_network_node
  remove_network_node node_id s =
      let s' : MembershipState = record s { nodes_map = delete_node node_id s.nodes_map } in
      elim s.network_node_db [
        | none ↦ (s', ok tt)
        | some db ↦ with_db s' db (db_remove_network_node db node_id)
      ]
