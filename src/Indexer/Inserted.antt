-- ===== src/Indexer/Inserted.antt =====
-- A dataset that is inserted into the table of an indexer without a cache, and read back.
use lohpi.Common.{
  if◌then◌else◌, Option-cases, ok, String, ◌≡◌, refl, ap, ◌∙◌, ◌≢◌, inl, inr, false, none, some,
  arith, str_eq, eq_iff,
}
use lohpi.Proto.{Timestamp, Dataset}
use lohpi.Extern.{keep_old, is_some}
use lohpi.Indexer.{
  Row, Services, row_policy, to_row, policy_of_row, db_select_dataset, dataset, db_insert_dataset,
  insert_dataset, db_dataset_exists, dataset_exists,
}
use lohpi.Indexer.Uncached.{IsReliable, IsDate, Readable, uncached, dataset_exists_lem}

module _ (ext : Services) where
  open ext use {table, timestamp_text}

  -- the database takes every row
  abbrev pub InsertAnswers : Type 0
  InsertAnswers = (db : table.Db) (k : String) (r : Row) → table.insert db k r ≢ none

  -- the dates that the program writes are read back
  abbrev pub DatesReadable : Type 0
  DatesReadable = (t : Timestamp) → IsDate ext (timestamp_text (some t))

  -- what is read for a row
  abbrev pub read_dataset : String → Row → Timestamp → Timestamp → Dataset
  read_dataset k r created applied = record {
    identifier = k;
    policy = some (row_policy k r created applied);
    allow_multiple_checkouts = r.allow_multiple_checkout;
  }

  -- without a cache, an insertion keeps a row that is there
  pub insert_dataset-rows :
      InsertAnswers
      → (db : table.Db) (k : String) (d : Dataset)
      → (db' : table.Db) × (insert_dataset ext k (some d) (uncached ext db)
          ≡ (uncached ext db', ok tt))
        × ((j : String)
            → table.row db' j
              ≡ (if str_eq k j then keep_old (to_row ext d) (table.row db k) else table.row db j))
  unfolding insert_dataset db_insert_dataset
  insert_dataset-rows answers db k d = elim (Option-cases (table.insert db k (to_row ext d))) [
    | inl failed ↦ absurd (answers db k (to_row ext d) failed)
    | inr (db', e) ↦ (db', rw e refl, λ j. table.insert_row db k (to_row ext d) db' j e)
  ]

  pub insert_dataset-uncached :
      InsertAnswers
      → (db : table.Db) (k : String) (d : Dataset) → table.row db k ≡ none
      → (db' : table.Db) × (insert_dataset ext k (some d) (uncached ext db)
          ≡ (uncached ext db', ok tt))
        × (table.row db' k ≡ some (to_row ext d))
  insert_dataset-uncached answers db k d gone =
      let (db', put, rows) = insert_dataset-rows answers db k d in
      (db', put, rw (rows k, (eq_iff k k).1 refl, gone) refl)

  -- the table answers, and the dates of the row are readable
  pub dataset-uncached :
      IsReliable ext
      → (db : table.Db) (k : String) (r : Row) → str_eq k "" ≡ false
      → table.row db k ≡ some r
      → Readable ext (some r)
      → (created : Timestamp) × (applied : Timestamp) × (dataset ext (uncached ext db) k
          ≡ ok (some (read_dataset k r created applied)))
  unfolding dataset db_select_dataset policy_of_row
  dataset-uncached reliable db k r named row ((created, ec), (applied, ea)) =
      elim (Option-cases (table.select db k)) [
        | inl failed ↦ absurd (reliable.select_answers db k failed)
        | inr (o, e) ↦
            (created, applied, rw (named, e, ← (table.select_row db k o e), row, ec, ea) refl)
      ]

  -- a dataset that the table does not have does not exist, also where the database fails
  pub dataset_exists-uncached :
      (db : table.Db) (k : String)
      → table.row db k ≡ none
      → dataset_exists ext k (uncached ext db) ≡ (uncached ext db, ok false)
  unfolding db_dataset_exists
  dataset_exists-uncached db k gone =
      let absent : db_dataset_exists ext db k ≡ false = elim (Option-cases (table.exists db k)) [
        | inl failed ↦ ground (arith, failed)
        | inr (b, e) ↦ ground (arith, e, ap is_some gone, table.exists_row db k b e)
      ] in
      dataset_exists_lem ext db k ∙ ap (λ b. (uncached ext db, ok b)) absent
