-- ===== src/Indexer.antt =====
-- `DatasetIndexerUnit` of core/datasetmanager/datasetindexer.go and datasetindexerdb.go: the
-- datasets and their policies, in a table of PostgreSQL behind an optional Redis cache. An error
-- of the cache is logged and ignored.
pub mod Uncached
pub mod Inserted
pub mod All
use lohpi.Common.{
  ◌==◌, if◌then◌else◌, nil_argument, empty_argument, not_found, sql_error, redis_error, codec_error,
  Outcome, ok, err, panic, ◌>>=◌, or_err, ℕ, String, Bool, true, false, Option, none, some, List,
  [], str_eq,
}
use lohpi.Proto.{
  Timestamp, Policy, Dataset, get_version, get_content, get_date_created, get_date_applied,
}
use lohpi.Timestamp.{to_timestamppb}
use lohpi.Extern.{or_same, Table, Cached, Redis, Codec}

-- a row of the storage table; the two dates are text
pub record Row : Type 0 where
  pub allow_multiple_checkout : Bool
  pub policy_content : Bool
  pub policy_version : ℕ
  pub date_created : List ℕ
  pub date_applied : List ℕ

-- the services, and `Timestamp.String()` of protobuf
pub record Services : Type 1 where
  pub Bytes : Type 0
  pub table : Table Row
  pub redis : Redis Bytes
  pub codec : Codec Dataset Bytes
  pub timestamp_text : Option Timestamp → List ℕ

-- the policy that is made of a row and its two dates
abbrev pub row_policy : String → Row → Timestamp → Timestamp → Policy
row_policy dataset_id r created applied = record {
  dataset_identifier = dataset_id;
  content = r.policy_content;
  version = r.policy_version;
  date_created = some created;
  date_applied = some applied;
}

-- the dates are read in turn: an error gives nil
abbrev pub dated_policy :
    String → Row → Outcome Timestamp → Outcome Timestamp → Outcome (Option Policy)
dated_policy dataset_id r panic _ = panic
dated_policy dataset_id r (err e) _ = ok none
dated_policy dataset_id r (ok created) panic = panic
dated_policy dataset_id r (ok created) (err e) = ok none
dated_policy dataset_id r (ok created) (ok applied) =
    ok (some (row_policy dataset_id r created applied))

module _ (ext : Services) where
  open ext use {Bytes, table, redis, codec, timestamp_text}

  abbrev pub State : Type 0
  State = Cached redis.Mem table.Db

  -- the columns that `dbInsertDataset` writes; the getters are safe on a nil policy
  unfoldable pub to_row : Dataset → Row
  to_row d = record {
    allow_multiple_checkout = d.allow_multiple_checkouts;
    policy_content = get_content d.policy;
    policy_version = get_version d.policy;
    date_created = timestamp_text (get_date_created d.policy);
    date_applied = timestamp_text (get_date_applied d.policy);
  }

  -- the columns that `dbInsertDatasetPolicy` sets
  unfoldable pub set_policy : Policy → Row → Row
  set_policy p r = record r {
    policy_content = p.content;
    policy_version = p.version;
    date_applied = timestamp_text p.date_applied;
  }

  -- the policy that is made of a row
  unfoldable pub policy_of_row : String → Row → Outcome (Option Policy)
  policy_of_row dataset_id r =
      dated_policy dataset_id r (to_timestamppb r.date_created) (to_timestamppb r.date_applied)

  abbrev pub dataset_of : String → Row → Outcome (Option Policy) → Outcome (Option Dataset)
  dataset_of dataset_id r panic = panic
  dataset_of dataset_id r (err e) = err e
  dataset_of dataset_id r (ok none) = ok none
  dataset_of dataset_id r (ok (some p)) = ok (
      some (record {
        identifier = dataset_id;
        policy = some p;
        allow_multiple_checkouts = r.allow_multiple_checkout;
      }))

  abbrev pub from_selected : String → Option (Option Row) → Outcome (Option Dataset)
  from_selected dataset_id none = ok none
  from_selected dataset_id (some none) = ok none
  from_selected dataset_id (some (some r)) = dataset_of dataset_id r (policy_of_row dataset_id r)

  -- `dbSelectDataset`: an error of the query is logged, and the result is nil
  unfoldable pub db_select_dataset : table.Db → String → Outcome (Option Dataset)
  unfolding policy_of_row
  db_select_dataset db dataset_id =
      if str_eq dataset_id ""
      then ok none
      else from_selected dataset_id (table.select db dataset_id)

  abbrev pub policy_selected : String → Option (Option Row) → Outcome (Option Policy)
  policy_selected dataset_id none = panic
  policy_selected dataset_id (some none) = ok none
  policy_selected dataset_id (some (some r)) = policy_of_row dataset_id r

  -- `dbSelectDatasetPolicy`: an error of the query panics
  unfoldable pub db_select_dataset_policy : table.Db → String → Outcome (Option Policy)
  unfolding policy_of_row
  db_select_dataset_policy db dataset_id =
      if str_eq dataset_id ""
      then ok none
      else policy_selected dataset_id (table.select db dataset_id)

  abbrev pub from_bytes : Option (Option Bytes) → Outcome Dataset
  from_bytes none = err redis_error
  from_bytes (some none) = err not_found
  from_bytes (some (some b)) = or_err codec_error (codec.unmarshal b)

  unfoldable pub cache_dataset : redis.Mem → String → Outcome Dataset
  cache_dataset m dataset_id = from_bytes (redis.mget m dataset_id)

  abbrev pub from_cache_or : Outcome (Option Dataset) → Outcome Dataset → Outcome (Option Dataset)
  from_cache_or below (ok d) = ok (some d)
  from_cache_or below _ = below

  abbrev pub dataset_with :
      Option redis.Mem → Outcome (Option Dataset) → String → Outcome (Option Dataset)
  dataset_with none below dataset_id = below
  dataset_with (some m) below dataset_id = from_cache_or below (cache_dataset m dataset_id)

  -- `Dataset`
  unfoldable pub dataset : State → String → Outcome (Option Dataset)
  unfolding db_select_dataset cache_dataset
  dataset s dataset_id = dataset_with s.cache (db_select_dataset s.db dataset_id) dataset_id

  -- `DatasetIdentifiers`: the keys of the cache, if it answers
  unfoldable pub dataset_identifiers : State → List String
  dataset_identifiers s =
      let below : List String = elim (table.keys s.db) [ none ↦ [] | some ids ↦ ids ] in
      elim s.cache [ none ↦ below | some m ↦ elim (redis.scan m) [ none ↦ below | some ids ↦ ids ] ]

  unfoldable pub cache_insert_dataset : redis.Mem → String → Dataset → Outcome redis.Mem
  cache_insert_dataset m dataset_id d =
      or_err codec_error (codec.marshal d) >>= λ b. or_err redis_error (redis.set m dataset_id b)

  abbrev pub or_panic {ℓ} : {A : Type ℓ} → Option A → Outcome A
  or_panic none = panic
  or_panic (some a) = ok a

  unfoldable pub db_insert_dataset : table.Db → String → Dataset → Outcome table.Db
  unfolding to_row
  db_insert_dataset db dataset_id d = or_panic (table.insert db dataset_id (to_row d))

  -- the new database, or the old one under an error
  abbrev pub with_db : State → Outcome table.Db → State × Outcome (Unit {0})
  with_db s (ok db') = (record s { db = db' }, ok tt)
  with_db s (err e) = (s, err e)
  with_db s panic = (s, panic)

  abbrev pub cache_after_insert : Option redis.Mem → String → Dataset → Option redis.Mem
  cache_after_insert none dataset_id d = none
  cache_after_insert (some m) dataset_id d = some (or_same m (cache_insert_dataset m dataset_id d))

  -- `InsertDataset`: the cache takes the new dataset, the table keeps a row that it has
  unfoldable pub insert_dataset : String → Option Dataset → State → State × Outcome (Unit {0})
  unfolding cache_insert_dataset db_insert_dataset
  insert_dataset dataset_id none s = (s, err nil_argument)
  insert_dataset dataset_id (some d) s =
      with_db (record s { cache = cache_after_insert s.cache dataset_id d })
        (db_insert_dataset s.db dataset_id d)

  abbrev pub or_false : Option Bool → Bool
  or_false none = false
  or_false (some b) = b

  -- `dbDatasetExists`: an error is logged and counts as false
  unfoldable pub db_dataset_exists : table.Db → String → Bool
  db_dataset_exists db dataset_id =
      if str_eq dataset_id "" then false else or_false (table.exists db dataset_id)

  abbrev pub is_one : Option ℕ → Bool
  is_one none = false
  is_one (some r) = r == 1

  abbrev pub cache_dataset_exists : Option redis.Mem → String → Bool
  cache_dataset_exists none dataset_id = false
  cache_dataset_exists (some m) dataset_id = is_one (redis.exists m dataset_id)

  -- what `DatasetExists` returns after the dataset was put into the cache, whatever came of it
  abbrev pub after_warming : State × Outcome (Unit {0}) → State × Outcome Bool
  after_warming (s, panic) = (s, panic)
  after_warming (s, _) = (s, ok true)

  abbrev pub warm : String → State → Outcome (Option Dataset) → State × Outcome Bool
  warm dataset_id s panic = (s, panic)
  warm dataset_id s (err e) = (s, ok true)
  warm dataset_id s (ok none) = (s, ok true)
  warm dataset_id s (ok (some d)) = after_warming (insert_dataset dataset_id (some d) s)

  abbrev pub found_in_db : String → State → Bool → State × Outcome Bool
  found_in_db dataset_id s false = (s, ok false)
  found_in_db dataset_id s true = elim s.cache [
    | none ↦ (s, ok true)
    | some m ↦ warm dataset_id s (db_select_dataset s.db dataset_id)
  ]

  abbrev pub found_in_cache : String → State → Bool → State × Outcome Bool
  found_in_cache dataset_id s true = (s, ok true)
  found_in_cache dataset_id s false = found_in_db dataset_id s (db_dataset_exists s.db dataset_id)

  -- `DatasetExists`
  unfoldable pub dataset_exists : String → State → State × Outcome Bool
  unfolding db_dataset_exists db_select_dataset insert_dataset
  dataset_exists dataset_id s =
      found_in_cache dataset_id s (cache_dataset_exists s.cache dataset_id)

  abbrev pub cache_after_remove : Option redis.Mem → String → Option redis.Mem
  cache_after_remove none dataset_id = none
  cache_after_remove (some m) dataset_id = elim (redis.del m dataset_id) [
    | none ↦ some m
    | some (n, m') ↦ some m'
  ]

  unfoldable pub db_remove_dataset : table.Db → String → Outcome table.Db
  db_remove_dataset db dataset_id =
      if str_eq dataset_id ""
      then err empty_argument
      else elim (table.delete db dataset_id) [ none ↦ err sql_error | some (n, db') ↦ ok db' ]

  -- `RemoveDataset`
  unfoldable pub remove_dataset : String → State → State × Outcome (Unit {0})
  unfolding db_remove_dataset
  remove_dataset dataset_id s =
      with_db (record s { cache = cache_after_remove s.cache dataset_id })
        (db_remove_dataset s.db dataset_id)

  unfoldable pub db_insert_dataset_policy : table.Db → String → Policy → Outcome table.Db
  unfolding set_policy
  db_insert_dataset_policy db dataset_id p = or_panic (table.update db dataset_id (set_policy p))

  abbrev pub set_where : String → Policy → State × Outcome Bool → State × Outcome (Unit {0})
  set_where dataset_id p (s, panic) = (s, panic)
  set_where dataset_id p (s, err e) = (s, err e)
  set_where dataset_id p (s, ok false) = (s, err not_found)
  set_where dataset_id p (s, ok true) = with_db s (db_insert_dataset_policy s.db dataset_id p)

  -- `SetDatasetPolicy`: only the table is written
  unfoldable pub set_dataset_policy : String → Option Policy → State → State × Outcome (Unit {0})
  unfolding db_insert_dataset_policy dataset_exists
  set_dataset_policy dataset_id none s = (s, err nil_argument)
  set_dataset_policy dataset_id (some p) s = set_where dataset_id p (dataset_exists dataset_id s)

  -- `GetDatasetPolicy`: only the table is read
  unfoldable pub get_dataset_policy : State → String → Outcome (Option Policy)
  unfolding db_select_dataset_policy
  get_dataset_policy s dataset_id = db_select_dataset_policy s.db dataset_id
