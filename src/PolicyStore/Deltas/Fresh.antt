-- ===== src/PolicyStore/Deltas/Fresh.antt =====
-- `resolveDatasetDeltas` at a policy store without a cache, whose table is empty or not.
use lohpi.Common.{
  if◌then◌else◌, ok, assign, entry_of, String, ◌≡◌, false, none, some, List, [], ◌∷◌, str_eq,
}
use lohpi.Extern.{is_some}
use lohpi.Proto.{Dataset}
use lohpi.Indexer.{State, dataset, insert_dataset}
use lohpi.Indexer
use lohpi.Indexer.Uncached.{uncached}
use lohpi.PolicyStore.Request.{Clock}
use lohpi.PolicyStore.Deltas.{Progress}

-- a dataset of an identifier whose policy has version 0, the content `false` and the two dates of
-- the clock
unfoldable pub fresh_dataset : Clock → String → Dataset
fresh_dataset clock k = record {
  identifier = k;
  policy = some (record {
    dataset_identifier = k;
    content = false;
    version = 0;
    date_created = some clock.0;
    date_applied = some clock.1;
  });
  allow_multiple_checkouts = false;
}

-- the keys are the identifiers, are not empty and are listed once
abbrev pub WellKeyed : List (String × Dataset) → Type 0
WellKeyed [] = Unit
WellKeyed ((k, d) ∷ sets) =
    (k ≡ d.identifier) × (str_eq k "" ≡ false) × (entry_of k sets ≡ none) × WellKeyed sets

module _ (indexer : Indexer.Services) (as_bytes : String → indexer.Bytes) where
  open indexer use {table, timestamp_text}

  -- the row of such a dataset
  unfoldable pub fresh_row : Clock → Indexer.Row
  fresh_row clock = record {
    allow_multiple_checkout = false;
    policy_content = false;
    policy_version = 0;
    date_created = timestamp_text (some clock.0);
    date_applied = timestamp_text (some clock.1);
  }

  -- a new dataset gets a row and an entry of the delta set
  pub record Added (clock : Clock) (k : String) (db : table.Db) (deltas : List (String × Dataset))
      (result : Progress indexer as_bytes) : Type 0 where
    pub db' : table.Db
    pub gives : result ≡ (uncached indexer db', ok (assign k (fresh_dataset clock k) deltas))
    pub rows :
        (j : String)
        → table.row db' j ≡ (if str_eq k j then some (fresh_row clock) else table.row db j)

  -- what the loop does to a table that has no row for an incoming dataset
  pub record AllAdded (clock : Clock) (sets : List (String × Dataset)) (db : table.Db)
      (deltas : List (String × Dataset)) (result : Progress indexer as_bytes) : Type 0 where
    pub db' : table.Db
    pub deltas' : List (String × Dataset)
    pub gives : result ≡ (uncached indexer db', ok deltas')
    pub entries :
        (j : String)
        → entry_of j deltas'
          ≡ (if is_some (entry_of j sets) then some (fresh_dataset clock j) else entry_of j deltas)
    pub rows :
        (j : String)
        → table.row db' j
          ≡ (if is_some (entry_of j sets) then some (fresh_row clock) else table.row db j)
