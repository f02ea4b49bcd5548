-- ===== src/Node/Batch/Stale.antt =====
-- Policy batches at a node with a cache: `SetDatasetPolicy` writes the table and `Dataset` reads
-- the cache, so that the version guard compares with the cached policy.
use lohpi.Common.{
  leb, ok, ◌<◌, String, ◌≡◌, refl, ap, ◌∙◌, true, false, some, [], ◌∷◌, arith, eq_iff,
}
use lohpi.Proto.{Policy, Dataset, get_version}
use lohpi.Extern.{map_some}
use lohpi.Indexer.{
  Services, State, set_policy, cache_dataset, dataset, dataset_exists, db_insert_dataset_policy,
  set_dataset_policy,
}
use lohpi.Node.Batch.{apply_policy, apply_all, process_policy_batch}

module _ (ext : Services) where
  open ext use {Bytes, table, redis, codec}

  -- the cache answers with the dataset
  pub record IsCached (m : redis.Mem) (k : String) (d : Dataset) : Type 0 where
    pub bytes : Bytes
    pub found : redis.exists m k ≡ some 1
    pub fetched : redis.mget m k ≡ some (some bytes)
    pub decoded : codec.unmarshal bytes ≡ some d

  abbrev pub cached : redis.Mem → table.Db → State ext
  cached m db = record { cache = some m; db = db }

  pub exists_cached :
      (m : redis.Mem) (db : table.Db) (k : String) (d : Dataset)
      → IsCached m k d
      → dataset_exists ext k (cached m db) ≡ (cached m db, ok true)
  unfolding dataset_exists
  exists_cached m db k d c = rw c.found refl

  pub dataset_cached :
      (m : redis.Mem) (db : table.Db) (k : String) (d : Dataset)
      → IsCached m k d
      → dataset ext (cached m db) k ≡ ok (some d)
  unfolding dataset cache_dataset
  dataset_cached m db k d c = rw (c.fetched, c.decoded) refl

  apply_cached :
      (m : redis.Mem) (db db' : table.Db) (k : String) (p : Policy) (d : Dataset)
      → IsCached m k d
      → p.dataset_identifier ≡ k
      → get_version d.policy < p.version
      → table.update db k (set_policy ext p) ≡ some db'
      → apply_policy ext (some p) (cached m db) ≡ (cached m db', ok tt)
  unfolding apply_policy set_dataset_policy db_insert_dataset_policy
  apply_cached m db db' k p d c name newer e =
      let new : leb p.version (get_version d.policy) ≡ false = ground (arith, newer) in
      rw
        (
          name,
          exists_cached m db k d c,
          dataset_cached m db k d c,
          new,
          exists_cached m db k d c,
          e,
        )
        refl

  table_row_lem :
      (db db' : table.Db) (k : String) (p : Policy)
      → table.update db k (set_policy ext p) ≡ some db'
      → table.row db' k ≡ map_some (set_policy ext p) (table.row db k)
  table_row_lem db db' k p e =
      rw (table.update_row db k (set_policy ext p) db' k e, (eq_iff k k).1 refl) refl

  -- Where the cache holds a dataset, a policy `p` and then an older policy `q`, both newer than the
  -- cached one, are both applied: the table ends with the older policy, and `Dataset` still
  -- returns the dataset as it was cached, with neither of them.
  pub cached_policy_goes_back :
      (m : redis.Mem) (db db' db'' : table.Db) (k : String) (p q : Policy) (d : Dataset)
      → IsCached m k d
      → p.dataset_identifier ≡ k
      → q.dataset_identifier ≡ k
      → get_version d.policy < q.version
      → q.version < p.version
      → table.update db k (set_policy ext p) ≡ some db'
      → table.update db' k (set_policy ext q) ≡ some db''
      → let result = process_policy_batch ext (some (some p ∷ some q ∷ [])) (cached m db) in
        (result ≡ (cached m db'', ok tt))
        × (table.row db'' k
            ≡ map_some (set_policy ext q) (map_some (set_policy ext p) (table.row db k)))
        × (dataset ext result.0 k ≡ ok (some d))
  unfolding process_policy_batch apply_all
  cached_policy_goes_back m db db' db'' k p q d c ep eq_ newer older e e' =
      rw
        (
          apply_cached m db db' k p d c ep (omega (arith, newer, older)) e,
          apply_cached m db' db'' k q d c eq_ newer e',
        )
        (
          refl,
          table_row_lem db' db'' k q e'
              ∙ ap (map_some (set_policy ext q)) (table_row_lem db db' k p e),
          dataset_cached m db'' k d c,
        )
