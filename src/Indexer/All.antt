-- ===== src/Indexer/All.antt =====
-- `Datasets` of core/datasetmanager/datasetindexer.go, and `dbGetAllDatasets` of datasetindexerdb.go:
-- all datasets of the indexer. `as_bytes` is Go's conversion of a string to bytes.
use lohpi.Common.{
  sql_error, redis_error, codec_error, Outcome, ok, err, panic, ◌>>=◌, or_err, assign, String, ◌≡◌,
  refl, Option, none, some, List, [], ◌∷◌,
}
use lohpi.Proto.{Dataset}
use lohpi.Indexer.{Services, State}

module _ (ext : Services) (as_bytes : String → ext.Bytes) where
  open ext use {table, redis, codec}

  abbrev pub with_decoded :
      (List (String × Dataset) → Outcome (List (String × Dataset)))
      → List (String × Dataset)
      → Option Dataset
      → Outcome (List (String × Dataset))
  with_decoded rest sets none = err codec_error
  with_decoded rest sets (some d) = rest (assign d.identifier d sets)

  -- the loop of `cacheDatasets` over the scanned keys, each decoded as if it were a dataset
  unfoldable pub decode_keys :
      List String → List (String × Dataset) → Outcome (List (String × Dataset))
  decode_keys [] sets = ok sets
  decode_keys (k ∷ ids) sets = with_decoded (decode_keys ids) sets (codec.unmarshal (as_bytes k))

  -- `cacheDatasets`
  unfoldable pub cache_datasets : redis.Mem → Outcome (List (String × Dataset))
  unfolding decode_keys
  cache_datasets m = or_err redis_error (redis.scan m) >>= λ ids. decode_keys ids []

  -- the rows have seven columns, which are scanned into six variables: that fails and panics
  abbrev pub scan_rows : List String → Outcome (List (String × Dataset))
  scan_rows [] = ok []
  scan_rows (k ∷ ids) = panic

  -- `dbGetAllDatasets`
  unfoldable pub db_get_all_datasets : table.Db → Outcome (List (String × Dataset))
  db_get_all_datasets db = or_err sql_error (table.keys db) >>= scan_rows

  -- an error of the database gives nil
  abbrev pub or_nil : Outcome (List (String × Dataset)) → Outcome (Option (List (String × Dataset)))
  or_nil (ok sets) = ok (some sets)
  or_nil (err e) = ok none
  or_nil panic = panic

  abbrev pub cached_or :
      Outcome (Option (List (String × Dataset)))
      → Outcome (List (String × Dataset))
      → Outcome (Option (List (String × Dataset)))
  cached_or below (ok sets) = ok (some sets)
  cached_or below _ = below

  abbrev pub datasets_with :
      Option redis.Mem
      → Outcome (Option (List (String × Dataset)))
      → Outcome (Option (List (String × Dataset)))
  datasets_with none below = below
  datasets_with (some m) below = cached_or below (cache_datasets m)

  -- `Datasets`
  unfoldable pub datasets : State ext → Outcome (Option (List (String × Dataset)))
  unfolding cache_datasets db_get_all_datasets
  datasets s = datasets_with s.cache (or_nil (db_get_all_datasets s.db))

  -- Without a cache, `Datasets` panics as soon as the table has a row.
  pub datasets_of_rows :
      (db : table.Db) (k : String) (ids : List String)
      → table.keys db ≡ some (k ∷ ids)
      → datasets (record { cache = none; db = db }) ≡ panic
  unfolding datasets db_get_all_datasets
  datasets_of_rows db k ids e = rw e refl
