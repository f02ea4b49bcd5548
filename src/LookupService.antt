-- ===== src/LookupService.antt =====
-- `DatasetLookupService` of core/datasetmanager/datasetlookupservice.go and
-- datasetlookupservicedb.go: which node stores a dataset. A Redis cache stands before a table of
-- PostgreSQL; the cache may be absent. An error of the cache is logged and ignored.
pub mod Refinement
pub mod Reads
pub mod Calm
mod Tests
use lohpi.Common.{
  ◌==◌, if◌then◌else◌, nil_argument, empty_argument, not_found, redis_error, codec_error, Outcome,
  ok, err, panic, ◌>>=◌, or_err, ℕ, String, Bool, true, false, Option, none, some, List, [], str_eq,
}
use lohpi.Proto.{Timestamp, Node}
use lohpi.Timestamp.{to_timestamppb}
use lohpi.Extern.{or_same, Table, Cached, Redis, Codec}

-- a row of the lookup table; the boot time is text
pub record Row : Type 0 where
  pub node_id : String
  pub ip_address : String
  pub public_id : List ℕ
  pub https_address : String
  pub port : ℕ
  pub boottime : List ℕ

-- the services, and `Timestamp.String()` of protobuf
pub record Services : Type 1 where
  pub Bytes : Type 0
  pub table : Table Row
  pub redis : Redis Bytes
  pub codec : Codec Node Bytes
  pub timestamp_text : Option Timestamp → List ℕ

module _ (ext : Services) where
  open ext use {Bytes, table, redis, codec, timestamp_text}

  abbrev pub State : Type 0
  State = Cached redis.Mem table.Db

  -- the columns that `dbInsertDatasetNode` writes
  unfoldable pub to_row : Node → Row
  to_row n = record {
    node_id = n.name;
    ip_address = n.ifrit_address;
    public_id = n.id;
    https_address = n.https_address;
    port = n.port;
    boottime = timestamp_text n.boot_time;
  }

  -- the node that `dbSelectDatasetNode` makes of a row: a boot time that cannot be read gives nil
  unfoldable pub from_row : Row → Outcome (Option Node)
  from_row r = elim (to_timestamppb r.boottime) [
    | panic ↦ panic
    | err e ↦ ok none
    | ok t ↦ ok (
        some (record {
          name = r.node_id;
          ifrit_address = r.ip_address;
          id = r.public_id;
          https_address = r.https_address;
          port = r.port;
          boot_time = some t;
        }))
  ]

  from_selected : Option (Option Row) → Outcome (Option Node)
  unfolding from_row
  from_selected none = panic
  from_selected (some none) = ok none
  from_selected (some (some r)) = from_row r

  pub db_select_dataset_node : table.Db → String → Outcome (Option Node)
  unfolding from_selected
  db_select_dataset_node db dataset_id =
      if str_eq dataset_id "" then ok none else from_selected (table.select db dataset_id)

  from_bytes : Option (Option Bytes) → Outcome Node
  from_bytes none = err redis_error
  from_bytes (some none) = err not_found
  from_bytes (some (some b)) = or_err codec_error (codec.unmarshal b)

  pub cache_dataset_node : redis.Mem → String → Outcome Node
  unfolding from_bytes
  cache_dataset_node m dataset_id = from_bytes (redis.mget m dataset_id)

  abbrev from_cache_or : Outcome (Option Node) → Outcome Node → Outcome (Option Node)
  from_cache_or below (ok n) = ok (some n)
  from_cache_or below _ = below

  -- `DatasetNode`
  unfoldable pub dataset_node : State → String → Outcome (Option Node)
  unfolding cache_dataset_node db_select_dataset_node
  dataset_node s dataset_id = elim s.cache [
    | none ↦ db_select_dataset_node s.db dataset_id
    | some m ↦
        from_cache_or (db_select_dataset_node s.db dataset_id) (cache_dataset_node m dataset_id)
  ]

  -- protobuf refuses to marshal a nil pointer
  pub cache_insert_dataset_node : redis.Mem → String → Option Node → Outcome redis.Mem
  cache_insert_dataset_node m dataset_id none = err codec_error
  cache_insert_dataset_node m dataset_id (some n) =
      or_err codec_error (codec.marshal n) >>= λ b. or_err redis_error (redis.set m dataset_id b)

  pub db_insert_dataset_node : table.Db → String → Option Node → Outcome table.Db
  unfolding to_row
  db_insert_dataset_node db dataset_id none = err nil_argument
  db_insert_dataset_node db dataset_id (some n) = elim (table.upsert db dataset_id (to_row n)) [
    | none ↦ panic
    | some db' ↦ ok db'
  ]

  -- the new database, or the old one under an error
  abbrev pub with_db : State → Outcome table.Db → State × Outcome (Unit {0})
  with_db s (ok db') = (record s { db = db' }, ok tt)
  with_db s (err e) = (s, err e)
  with_db s panic = (s, panic)

  -- `InsertDatasetNode`
  unfoldable pub insert_dataset_node : String → Option Node → State → State × Outcome (Unit {0})
  unfolding cache_insert_dataset_node db_insert_dataset_node
  insert_dataset_node dataset_id node s =
      let cached : Option redis.Mem = elim s.cache [
        | none ↦ none
        | some m ↦ some (or_same m (cache_insert_dataset_node m dataset_id node))
      ] in
      with_db (record s { cache = cached }) (db_insert_dataset_node s.db dataset_id node)

  unfoldable pub db_dataset_node_exists : table.Db → String → Outcome Bool
  db_dataset_node_exists db dataset_id =
      if str_eq dataset_id ""
      then ok false
      else (elim (table.exists db dataset_id) [ none ↦ panic | some b ↦ ok b ])

  -- `r == 1` of the reply of EXISTS; an error counts as a miss
  unfoldable pub cache_dataset_node_exists : redis.Mem → String → Bool
  cache_dataset_node_exists m dataset_id = elim (redis.exists m dataset_id) [
    | none ↦ false
    | some r ↦ r == 1
  ]

  -- a miss of the cache and a hit of the database: the node is put into the cache
  unfoldable pub warm : redis.Mem → String → Outcome (Option Node) → Outcome redis.Mem
  warm m dataset_id panic = panic
  warm m dataset_id (err e) = ok m
  warm m dataset_id (ok node) = ok (or_same m (cache_insert_dataset_node m dataset_id node))

  unfoldable pub warmed : redis.Mem → table.Db → Outcome redis.Mem → State × Outcome Bool
  warmed m db (ok m') = (record { cache = some m'; db = db }, ok true)
  warmed m db (err e) = (record { cache = some m; db = db }, err e)
  warmed m db panic = (record { cache = some m; db = db }, panic)

  unfoldable pub exists_in_db : redis.Mem → String → table.Db → Outcome Bool → State × Outcome Bool
  exists_in_db m dataset_id db panic = (record { cache = some m; db = db }, panic)
  exists_in_db m dataset_id db (err e) = (record { cache = some m; db = db }, err e)
  exists_in_db m dataset_id db (ok false) = (record { cache = some m; db = db }, ok false)
  exists_in_db m dataset_id db (ok true) =
      warmed m db (warm m dataset_id (db_select_dataset_node db dataset_id))

  unfoldable pub exists_in_cache_or_db : redis.Mem → String → table.Db → Bool → State × Outcome Bool
  exists_in_cache_or_db m dataset_id db true = (record { cache = some m; db = db }, ok true)
  exists_in_cache_or_db m dataset_id db false =
      exists_in_db m dataset_id db (db_dataset_node_exists db dataset_id)

  -- `DatasetNodeExists`
  unfoldable pub dataset_node_exists : String → State → State × Outcome Bool
  dataset_node_exists dataset_id s = if str_eq dataset_id "" then (s, ok false) else (elim s.cache [
    | none ↦ (s, db_dataset_node_exists s.db dataset_id)
    | some m ↦ exists_in_cache_or_db m dataset_id s.db (cache_dataset_node_exists m dataset_id)
  ])

  -- DEL has removed the key even where the code reports that there was none
  cache_remove_dataset_node : redis.Mem → String → redis.Mem
  cache_remove_dataset_node m dataset_id = elim (redis.del m dataset_id) [
    | none ↦ m
    | some (n, m') ↦ m'
  ]

  after_delete : Option (ℕ × table.Db) → Outcome table.Db
  after_delete none = panic
  after_delete (some (n, db')) = if n == 0 then err not_found else ok db'

  pub db_remove_dataset_node : table.Db → String → Outcome table.Db
  unfolding db_dataset_node_exists after_delete
  db_remove_dataset_node db dataset_id =
      if str_eq dataset_id ""
      then err empty_argument
      else db_dataset_node_exists db dataset_id >>= λ there.
          if there then after_delete (table.delete db dataset_id) else err not_found

  -- `RemoveDatasetNode`
  unfoldable pub remove_dataset_node : String → State → State × Outcome (Unit {0})
  unfolding cache_remove_dataset_node db_remove_dataset_node
  remove_dataset_node dataset_id s =
      let cached : Option redis.Mem = elim s.cache [
        | none ↦ none
        | some m ↦ some (cache_remove_dataset_node m dataset_id)
      ] in
      with_db (record s { cache = cached }) (db_remove_dataset_node s.db dataset_id)

  -- `DatasetIdentifiers`: the keys of the cache, if it answers, and no key of the database
  unfoldable pub dataset_identifiers : State → List String
  dataset_identifiers s =
      let below : List String = elim (table.keys s.db) [ none ↦ [] | some ids ↦ ids ] in
      elim s.cache [ none ↦ below | some m ↦ elim (redis.scan m) [ none ↦ below | some ids ↦ ids ] ]
