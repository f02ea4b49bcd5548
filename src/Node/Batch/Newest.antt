-- ===== src/Node/Batch/Newest.antt =====
-- Policy batches at a node without a cache: a policy gives way to newer ones only.
use lohpi.Common.{
  leb, Bool-cases, Outcome, ok, err, panic, ◌≤◌, ◌<◌, String, ◌≡◌, refl, ap, ◌∙◌, ◌⊎◌, inl, inr,
  true, false, Option, none, some, List, [], ◌∷◌, arith, str_eq, eq_iff,
}
use lohpi.Proto.{Policy, Dataset, get_version}
use lohpi.Indexer.{Row, Services, State, set_policy, db_select_dataset, dataset, db_dataset_exists}
use lohpi.Indexer.Uncached.{
  uncached, version_of, dataset_exists_lem, db_select_dataset-version, set_dataset_policy_cases,
}
use lohpi.Node.Batch.{apply_newer, apply_to, apply_policy, go_on, apply_all, process_policy_batch}

module _ (ext : Services) where
  open ext use {table, timestamp_text}

  -- the policy was not applied
  abbrev Kept : table.Db → State ext × Outcome (Unit {0}) → Type 0
  Kept db result = result.0 ≡ uncached ext db

  -- the policy was newer than the one of the row, and the row was updated
  abbrev Replaced : table.Db → Option Policy → State ext × Outcome (Unit {0}) → Type 0
  Replaced db o result =
      (p : Policy) × (r : Row) × (db' : table.Db) × (o ≡ some p)
      × (table.row db p.dataset_identifier ≡ some r)
      × (r.policy_version < p.version)
      × (table.update db p.dataset_identifier (set_policy ext p) ≡ some db')
      × (result ≡ (uncached ext db', ok tt))

  apply_newer_cases :
      (db : table.Db) (p : Policy) (r : Row) (old : Option Policy)
      → db_dataset_exists ext db p.dataset_identifier ≡ true
      → table.row db p.dataset_identifier ≡ some r
      → get_version old ≡ r.policy_version
      → let result = apply_newer ext p.dataset_identifier (some p) (uncached ext db) old in
        Kept db result ⊎ Replaced db (some p) result
  apply_newer_cases db p r old here row v = elim (Bool-cases (leb p.version (get_version old))) [
    | inl outdated ↦ inl (rw outdated refl)
    | inr new ↦ rw new (elim (set_dataset_policy_cases ext db p.dataset_identifier p here) [
      | inl (_, failed) ↦ inl (ap (λ s. s.0) failed)
      | inr (db', e, set_) ↦ inr (p, r, db', refl, row, ground (arith, new, v), e, set_)
    ])
  ]

  apply_to_cases :
      (db : table.Db) (p : Policy) (o : Outcome (Option Dataset))
      → db_dataset_exists ext db p.dataset_identifier ≡ true
      → db_select_dataset ext db p.dataset_identifier ≡ o
      → let result = apply_to ext p.dataset_identifier (some p) (uncached ext db) o in
        Kept db result ⊎ Replaced db (some p) result
  apply_to_cases db p panic here e = inl refl
  apply_to_cases db p (err x) here e = inl refl
  apply_to_cases db p (ok none) here e = inl refl
  apply_to_cases db p (ok (some d)) here e =
      let (r, row, v) = db_select_dataset-version ext db p.dataset_identifier d e in
      apply_newer_cases db p r d.policy here row v

  db_exists_unnamed : (db : table.Db) → db_dataset_exists ext db "" ≡ false
  unfolding db_dataset_exists
  db_exists_unnamed db = refl

  apply_policy_cases :
      (db : table.Db) (o : Option Policy)
      → let result = apply_policy ext o (uncached ext db) in Kept db result ⊎ Replaced db o result
  unfolding apply_policy dataset
  apply_policy_cases db none = inl (rw (dataset_exists_lem ext db "", db_exists_unnamed db) refl)
  apply_policy_cases db (some p) =
      rw (dataset_exists_lem ext db p.dataset_identifier)
        (elim (Bool-cases (db_dataset_exists ext db p.dataset_identifier)) [
          | inl here ↦ rw here (apply_to_cases db p _ here refl)
          | inr gone ↦ rw gone (inl refl)
        ])

  update_version :
      (db db' : table.Db) (p : Policy) (r : Row) (k : String)
      → table.row db p.dataset_identifier ≡ some r
      → r.policy_version < p.version
      → table.update db p.dataset_identifier (set_policy ext p) ≡ some db'
      → version_of ext (table.row db k) ≤ version_of ext (table.row db' k)
  unfolding set_policy
  update_version db db' p r k row v e =
      rw (table.update_row db p.dataset_identifier (set_policy ext p) db' k e)
        (elim (Bool-cases (str_eq p.dataset_identifier k)) [
          | inl same ↦ rw (same, ← ((eq_iff p.dataset_identifier k).0 same), row) (omega (arith, v))
          | inr other ↦ rw other (omega arith)
        ])

  -- the next state has no cache either, and no older version
  Grown : table.Db → String → State ext → Type 0
  Grown db k s =
      (db' : table.Db) × (s ≡ uncached ext db')
      × (version_of ext (table.row db k) ≤ version_of ext (table.row db' k))

  apply_policy-Grown :
      (db : table.Db) (o : Option Policy) (k : String)
      → Grown db k (apply_policy ext o (uncached ext db)).0
  unfolding Grown
  apply_policy-Grown db o k = elim (apply_policy_cases db o) [
    | inl kept ↦ (db, kept, omega arith)
    | inr (p, r, db', e, row, v, updated, result) ↦
        (db', ap (λ t. t.0) result, update_version db db' p r k row v updated)
  ]

  go_on-Grown :
      (db : table.Db) (k : String) (rest : State ext → State ext × Outcome (Unit {0}))
      → ((db' : table.Db) → Grown db' k (rest (uncached ext db')).0)
      → (result : State ext × Outcome (Unit {0})) → Grown db k result.0
      → Grown db k (go_on ext rest result).0
  unfolding Grown
  go_on-Grown db k rest h (s, panic) g = g
  go_on-Grown db k rest h (s, err e) (db', same, le) =
      let (db'', e', le') = h db' in (db'', ap (λ t. (rest t).0) same ∙ e', omega (arith, le, le'))
  go_on-Grown db k rest h (s, ok _) (db', same, le) =
      let (db'', e', le') = h db' in (db'', ap (λ t. (rest t).0) same ∙ e', omega (arith, le, le'))

  apply_all-Grown :
      (ps : List (Option Policy)) (db : table.Db) (k : String)
      → Grown db k (apply_all ext ps (uncached ext db)).0
  unfolding apply_all
  apply_all-Grown [] db k = unfold Grown in (db, refl, omega arith)
  apply_all-Grown (p ∷ ps) db k =
      go_on-Grown db k (apply_all ext ps) (λ db'. apply_all-Grown ps db' k) _
        (apply_policy-Grown db p k)

  -- At a node without a cache, no batch of policies ever replaces the policy of a dataset by an
  -- older one, even where the batch fails half way.
  pub batch_keeps_newer :
      (gossip : Option (List (Option Policy))) (db : table.Db) (k : String)
      → version_of ext (table.row db k)
        ≤ version_of ext (table.row (process_policy_batch ext gossip (uncached ext db)).0.db k)
  unfolding process_policy_batch Grown
  batch_keeps_newer none db k = omega arith
  batch_keeps_newer (some []) db k = omega arith
  batch_keeps_newer (some (p ∷ ps)) db k =
      let (db', same, le) = apply_all-Grown (p ∷ ps) db k in rw same le
