-- ===== src/LookupService/Calm.antt =====
-- The operations of the lookup service do not panic while the services answer.
use lohpi.Common.{
  ◌==◌, if◌then◌else◌, Bool-cases, Option-cases, empty_argument, not_found, Outcome, ok, err, panic,
  ok-calm, err-calm, ℕ, String, refl, ◌≢◌, inl, inr, Bool, true, false, Option, none, some, str_eq,
}
use lohpi.Proto.{Node}
use lohpi.LookupService.{
  Services, State, db_insert_dataset_node, with_db, insert_dataset_node, db_dataset_node_exists,
  after_delete, db_remove_dataset_node, remove_dataset_node,
}
use lohpi.LookupService.Refinement.{IsReliable}

module _ (ext : Services) where
  open ext use {table}

  with_db-calm : (s : State ext) (o : Outcome table.Db) → o ≢ panic → (with_db ext s o).1 ≢ panic
  with_db-calm s (ok db') calm = ok-calm tt
  with_db-calm s (err e) calm = err-calm e
  with_db-calm s panic calm = absurd (calm refl)

  upserted-calm :
      (o : Option table.Db)
      → o ≢ none
      → ◌≢◌ {A = Outcome table.Db} (elim o [ none ↦ panic | some db' ↦ ok db' ]) panic
  upserted-calm none there = absurd (there refl)
  upserted-calm (some db') there = ok-calm db'

  db_insert-calm :
      IsReliable ext
      → (k : String) (n : Node) (db : table.Db) → db_insert_dataset_node ext db k (some n) ≢ panic
  unfolding db_insert_dataset_node
  db_insert-calm reliable k n db = upserted-calm _ (reliable.upsert_answers db k _)

  pub insert-calm :
      IsReliable ext
      → (k : String) (n : Node) (s : State ext) → (insert_dataset_node ext k (some n) s).1 ≢ panic
  unfolding insert_dataset_node
  insert-calm reliable k n s = with_db-calm _ _ (db_insert-calm reliable k n s.db)

  after_delete-calm : (o : Option (ℕ × table.Db)) → o ≢ none → after_delete ext o ≢ panic
  unfolding after_delete
  after_delete-calm none there = absurd (there refl)
  after_delete-calm (some (n, db')) there = elim (Bool-cases (n == 0)) [
    | inl nothing ↦ rw nothing (err-calm not_found)
    | inr one ↦ rw one (ok-calm db')
  ]

  removed-calm :
      (unnamed b : Bool) (o : Option (ℕ × table.Db))
      → o ≢ none
      → (if unnamed then err empty_argument else (if b then after_delete ext o else err not_found))
        ≢ panic
  removed-calm true b o there = err-calm empty_argument
  removed-calm false true o there = after_delete-calm o there
  removed-calm false false o there = err-calm not_found

  db_remove-calm :
      IsReliable ext → (db : table.Db) (k : String) → db_remove_dataset_node ext db k ≢ panic
  unfolding db_remove_dataset_node db_dataset_node_exists
  db_remove-calm reliable db k = elim (Bool-cases (str_eq k "")) [
    | inl unnamed ↦ rw unnamed (err-calm empty_argument)
    | inr named ↦ elim (Option-cases (table.exists db k)) [
      | inl failed ↦ absurd (reliable.exists_answers db k failed)
      | inr (b, e) ↦
          rw (named, e) (removed-calm false b (table.delete db k) (reliable.delete_answers db k))
    ]
  ]

  pub remove-calm :
      IsReliable ext → (k : String) (s : State ext) → (remove_dataset_node ext k s).1 ≢ panic
  unfolding remove_dataset_node
  remove-calm reliable k s = with_db-calm _ _ (db_remove-calm reliable s.db k)
