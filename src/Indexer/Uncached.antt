-- ===== src/Indexer/Uncached.antt =====
-- The indexer without a cache, over a table that answers.
use lohpi.Common.{
  if◌then◌else◌, Bool-cases, Option-cases, Outcome, ok, err, panic, ℕ, String, ◌≡◌, refl, ◌≢◌, ◌⊎◌,
  inl, inr, true, false, Option, none, some, List, arith, str_eq,
}
use lohpi.Proto.{Timestamp, Policy, Dataset, get_version}
use lohpi.Timestamp.{to_timestamppb}
use lohpi.Extern.{is_some}
use lohpi.Indexer.{
  Row, Services, dated_policy, State, set_policy, policy_of_row, dataset_of, from_selected,
  db_select_dataset, with_db, db_dataset_exists, dataset_exists, db_insert_dataset_policy,
  set_dataset_policy,
}

module _ (ext : Services) where
  open ext use {table, timestamp_text}

  -- the database answers
  pub record IsReliable : Type 0 where
    pub update_answers : (db : table.Db) (k : String) (f : Row → Row) → table.update db k f ≢ none
    pub select_answers : (db : table.Db) (k : String) → table.select db k ≢ none
    pub exists_answers : (db : table.Db) (k : String) → table.exists db k ≢ none

  -- a date column that `toTimestamppb` reads
  abbrev pub IsDate : List ℕ → Type 0
  IsDate s = (t : Timestamp) × (to_timestamppb s ≡ ok t)

  abbrev pub Readable : Option Row → Type 0
  Readable none = Unit
  Readable (some r) = IsDate r.date_created × IsDate r.date_applied

  -- a state without a cache
  abbrev pub uncached : table.Db → State ext
  uncached db = record { cache = none; db = db }

  abbrev pub version_of : Option Row → ℕ
  version_of none = 0
  version_of (some r) = r.policy_version

  -- without a cache `DatasetExists` changes nothing
  pub dataset_exists_lem :
      (db : table.Db) (k : String)
      → dataset_exists ext k (uncached db) ≡ (uncached db, ok (db_dataset_exists ext db k))
  unfolding dataset_exists
  dataset_exists_lem db k = elim (Bool-cases (db_dataset_exists ext db k)) [
    | inl here ↦ rw here
    | inr gone ↦ rw gone
  ]

  pub db_dataset_exists_lem :
      IsReliable
      → (db : table.Db) (k : String)
      → db_dataset_exists ext db k ≡ (if str_eq k "" then false else is_some (table.row db k))
  unfolding db_dataset_exists
  db_dataset_exists_lem reliable db k = elim (Option-cases (table.exists db k)) [
    | inl failed ↦ absurd (reliable.exists_answers db k failed)
    | inr (b, e) ↦ rw (e, table.exists_row db k b e)
  ]

  dated_policy-version :
      (k : String) (r : Row) (c a : Outcome Timestamp) (d : Dataset)
      → dataset_of ext k r (dated_policy k r c a) ≡ ok (some d)
      → get_version d.policy ≡ r.policy_version
  dated_policy-version k r panic a d h = ground arith
  dated_policy-version k r (err e) a d h = ground arith
  dated_policy-version k r (ok t) panic d h = ground arith
  dated_policy-version k r (ok t) (err e) d h = ground arith
  dated_policy-version k r (ok t) (ok u) d h = ground arith

  from_selected-version :
      (k : String) (o : Option (Option Row)) (d : Dataset)
      → from_selected ext k o ≡ ok (some d)
      → (r : Row) × (o ≡ some (some r)) × (get_version d.policy ≡ r.policy_version)
  unfolding policy_of_row
  from_selected-version k none d h = ground arith
  from_selected-version k (some none) d h = ground arith
  from_selected-version k (some (some r)) d h = (r, refl, dated_policy-version k r _ _ d h)

  -- a dataset that is read from the table has the version of its row
  pub db_select_dataset-version :
      (db : table.Db) (k : String) (d : Dataset)
      → db_select_dataset ext db k ≡ ok (some d)
      → (r : Row) × (table.row db k ≡ some r) × (get_version d.policy ≡ r.policy_version)
  unfolding db_select_dataset
  db_select_dataset-version db k d h = elim (Bool-cases (str_eq k "")) [
    | inl unnamed ↦ ground (arith, unnamed)
    | inr named ↦
        let (r, found, v) = from_selected-version k (table.select db k) d (rw named at h) in
        (r, table.select_row db k (some r) found, v)
  ]

  pub db_select_dataset_lem :
      IsReliable
      → (db : table.Db) (k : String) (r : Row) → str_eq k "" ≡ false
      → table.row db k ≡ some r
      → Readable (some r)
      → (d : Dataset) × (db_select_dataset ext db k ≡ ok (some d))
        × (get_version d.policy ≡ r.policy_version)
  unfolding db_select_dataset policy_of_row
  db_select_dataset_lem reliable db k r named row ((created, ec), (applied, ea)) =
      elim (Option-cases (table.select db k)) [
        | inl failed ↦ absurd (reliable.select_answers db k failed)
        | inr (o, e) ↦ rw (named, e, ← (table.select_row db k o e), row, ec, ea) ((_, refl, refl))
      ]

  set_where_lem :
      (db : table.Db) (k : String) (p : Policy)
      → db_dataset_exists ext db k ≡ true
      → set_dataset_policy ext k (some p) (uncached db)
        ≡ with_db ext (uncached db) (db_insert_dataset_policy ext db k p)
  unfolding set_dataset_policy
  set_where_lem db k p here = rw (dataset_exists_lem db k, here) refl

  -- where the dataset exists, `SetDatasetPolicy` updates its row or changes nothing
  pub set_dataset_policy_cases :
      (db : table.Db) (k : String) (p : Policy)
      → db_dataset_exists ext db k ≡ true
      → ((table.update db k (set_policy ext p) ≡ none)
          × (set_dataset_policy ext k (some p) (uncached db) ≡ (uncached db, panic)))
        ⊎ ((db' : table.Db) × (table.update db k (set_policy ext p) ≡ some db')
            × (set_dataset_policy ext k (some p) (uncached db) ≡ (uncached db', ok tt)))
  unfolding db_insert_dataset_policy
  set_dataset_policy_cases db k p here =
      elim (Option-cases (table.update db k (set_policy ext p))) [
        | inl failed ↦ inl (failed, rw (set_where_lem db k p here, failed) refl)
        | inr (db', e) ↦ inr (db', e, rw (set_where_lem db k p here, e) refl)
      ]
