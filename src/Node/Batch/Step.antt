-- ===== src/Node/Batch/Step.antt =====
-- `applyPolicy` at a node without a cache whose table answers.
use lohpi.Common.{
  ltb, leb, Bool-cases, Option-cases, ok, ok-calm, err-calm, ◌≡◌, refl, ap, inl, inr, true, false,
  Option, none, some, arith, str_eq,
}
use lohpi.Proto.{Policy}
use lohpi.Indexer.{Row, Services, dataset, db_dataset_exists, set_dataset_policy}
use lohpi.Indexer.Uncached.{
  IsReliable, IsDate, uncached, dataset_exists_lem, db_dataset_exists_lem, db_select_dataset_lem,
  set_dataset_policy_cases,
}
use lohpi.Node.Batch.{apply_to, apply_policy}
use lohpi.Node.Batch.Held.{
  newer, AllReadable, DatedPolicy, AllReadable-update, held_at-update, ok-ne-panic, not_applied,
  outdated_old, unknown_old, Gives,
}

module _ (ext : Services) where
  open ext use {table, timestamp_text}

  pub apply_new :
      IsReliable ext
      → (db : table.Db) (p : Policy) (r : Row) → AllReadable ext db
      → IsDate ext (timestamp_text p.date_applied)
      → db_dataset_exists ext db p.dataset_identifier ≡ true
      → table.row db p.dataset_identifier ≡ some r
      → ltb r.policy_version p.version ≡ true
      → Gives ext db
          (λ k. newer k (some p))
          (set_dataset_policy ext p.dataset_identifier (some p) (uncached ext db))
  apply_new reliable db p r readable dated here row new =
      elim (set_dataset_policy_cases ext db p.dataset_identifier p here) [
        | inl (failed, _) ↦ absurd (reliable.update_answers db p.dataset_identifier _ failed)
        | inr (db', e, result) ↦ record {
          db' = db';
          state = ap (λ s. s.0) result;
          no_panic = ok-ne-panic ext _ (uncached ext db') result;
          readable = AllReadable-update ext db db' p r readable dated row e;
          policies = λ k named. held_at-update ext db db' p r k row e new;
        }
      ]

  pub apply_known :
      IsReliable ext
      → (db : table.Db) (p : Policy) (r : Row) → AllReadable ext db
      → IsDate ext (timestamp_text p.date_applied)
      → str_eq p.dataset_identifier "" ≡ false
      → db_dataset_exists ext db p.dataset_identifier ≡ true
      → table.row db p.dataset_identifier ≡ some r
      → Gives ext db
          (λ k. newer k (some p))
          (apply_to ext p.dataset_identifier
            (some p)
            (uncached ext db)
            (dataset ext (uncached ext db) p.dataset_identifier))
  unfolding dataset
  apply_known reliable db p r readable dated named here row =
      let (d, e, v) =
        db_select_dataset_lem ext reliable db p.dataset_identifier r named row
          (rw row at (readable p.dataset_identifier)) in
      rw (e, v)
        (elim (Bool-cases (leb p.version r.policy_version)) [
          | inl outdated ↦ rw outdated (
              not_applied ext db (some p) (ok tt) readable (ok-calm tt)
                (outdated_old ext db p r row outdated))
          | inr new ↦
              rw new (apply_new reliable db p r readable dated here row (ground (arith, new)))
        ])

  pub apply_policy-Gives :
      IsReliable ext
      → (db : table.Db) (o : Option Policy) → AllReadable ext db
      → DatedPolicy ext o
      → Gives ext db (λ k. newer k o) (apply_policy ext o (uncached ext db))
  unfolding apply_policy
  apply_policy-Gives reliable db none readable dated =
      rw (dataset_exists_lem ext db "", db_dataset_exists_lem ext reliable db "")
        (not_applied ext db none _ readable (err-calm _) (λ k r named row. refl))
  apply_policy-Gives reliable db (some p) readable dated =
      rw (dataset_exists_lem ext db p.dataset_identifier)
        (elim (Bool-cases (str_eq p.dataset_identifier "")) [
          | inl unnamed ↦
              let gone : db_dataset_exists ext db p.dataset_identifier ≡ false =
                rw (db_dataset_exists_lem ext reliable db p.dataset_identifier, unnamed) refl in
              rw gone (
                not_applied ext db (some p) _ readable (err-calm _)
                  (unknown_old ext db p (inl unnamed)))
          | inr named ↦ elim (Option-cases (table.row db p.dataset_identifier)) [
            | inl gone_row ↦
                let gone : db_dataset_exists ext db p.dataset_identifier ≡ false =
                  rw (db_dataset_exists_lem ext reliable db p.dataset_identifier, named, gone_row)
                    refl in
                rw gone (
                  not_applied ext db (some p) _ readable (err-calm _)
                    (unknown_old ext db p (inr gone_row)))
            | inr (r, row) ↦
                let here : db_dataset_exists ext db p.dataset_identifier ≡ true =
                  rw (db_dataset_exists_lem ext reliable db p.dataset_identifier, named, row)
                    refl in
                rw here (apply_known reliable db p r readable dated named here row)
          ]
        ])
