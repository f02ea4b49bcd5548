-- ===== src/Node/Http/Access.antt =====
-- Who gets a dataset, and what becomes of a dataset that is added.
use lohpi.Common.{
  Bool-cases, Outcome, ok, err, panic, ℕ, String, ◌≡◌, refl, ◌≢◌, inl, inr, Bool, true, false,
  Option, none, some, List, arith, str_eq,
}
use lohpi.Proto.{Timestamp, Policy, Client, get_content}
use lohpi.Indexer.{
  Row, Services, dated_policy, State, policy_of_row, policy_selected, db_select_dataset_policy,
  dataset_exists, get_dataset_policy,
}
use lohpi.Checkout
use lohpi.Node.Http.{
  Reply, served, served_then, Settings, client_of, NodeState, after_checkout, serve, with_policy,
  where_indexed, with_client, get_dataset,
}

-- the handler that writes the data has run
abbrev pub was_served : Reply → Bool
was_served served = true
was_served (served_then _) = true
was_served _ = false

false-ne-true : false ≢ true
false-ne-true h = cc

module _ (ext : Services) (checkouts : Checkout.Services) where
  open ext use {table}

  dated_policy-content :
      (k : String) (r : Row) (c a : Outcome Timestamp) (o : Option Policy)
      → dated_policy k r c a ≡ ok o
      → get_content o ≡ true
      → r.policy_content ≡ true
  dated_policy-content k r panic a o h yes_ = ground arith
  dated_policy-content k r (err e) a o h yes_ = ground arith
  dated_policy-content k r (ok t) panic o h yes_ = ground arith
  dated_policy-content k r (ok t) (err e) o h yes_ = ground arith
  dated_policy-content k r (ok t) (ok u) o h yes_ = ground arith

  -- the table has a row that grants access
  abbrev pub Granted : table.Db → String → Type 0
  Granted db k = (r : Row) × (table.row db k ≡ some r) × (r.policy_content ≡ true)

  policy_selected-Granted :
      (db : table.Db) (k : String) (o : Option (Option Row)) (p : Option Policy)
      → table.select db k ≡ o
      → policy_selected ext k o ≡ ok p
      → get_content p ≡ true
      → Granted db k
  unfolding policy_of_row
  policy_selected-Granted db k none p e h yes_ = ground arith
  policy_selected-Granted db k (some none) p e h yes_ = ground arith
  policy_selected-Granted db k (some (some r)) p e h yes_ =
      (r, table.select_row db k (some r) e, dated_policy-content k r _ _ p h yes_)

  get_dataset_policy-Granted :
      (s : State ext) (k : String) (p : Option Policy)
      → get_dataset_policy ext s k ≡ ok p
      → get_content p ≡ true
      → Granted s.db k
  unfolding get_dataset_policy db_select_dataset_policy
  get_dataset_policy-Granted s k p h yes_ = elim (Bool-cases (str_eq k "")) [
    | inl unnamed ↦ ground (arith, unnamed)
    | inr named ↦ policy_selected-Granted s.db k (table.select s.db k) p refl (rw named at h) yes_
  ]

  after_checkout-datasets :
      (s : State ext) (x : Checkout.State checkouts × Outcome (Unit {0}))
      → (after_checkout ext checkouts s x).0.datasets ≡ s
  after_checkout-datasets s (c, ok _) = refl
  after_checkout-datasets s (c, err e) = refl
  after_checkout-datasets s (c, panic) = refl

  serve-datasets :
      (settings : Settings) (k : String) (client : Client) (n : NodeState ext checkouts)
      → (serve ext checkouts settings k client n).0.datasets ≡ n.datasets
  serve-datasets settings k client n = elim (Bool-cases settings.has_dataset_handler) [
    | inl set_ ↦ rw set_ (after_checkout-datasets n.datasets _)
    | inr unset ↦ rw unset refl
  ]

  with_policy-Granted :
      (settings : Settings) (k : String) (client : Client) (n : NodeState ext checkouts)
      (o : Outcome (Option Policy))
      → get_dataset_policy ext n.datasets k ≡ o
      → was_served (with_policy ext checkouts settings k client n o).1 ≡ true
      → Granted (with_policy ext checkouts settings k client n o).0.datasets.db k
  with_policy-Granted settings k client n panic e h = ground arith
  with_policy-Granted settings k client n (err x) e h = ground arith
  with_policy-Granted settings k client n (ok p) e h = elim (Bool-cases (get_content p)) [
    | inl yes_ ↦
        rw (yes_, serve-datasets settings k client n)
          (get_dataset_policy-Granted n.datasets k p e yes_)
    | inr no_ ↦ absurd (false-ne-true (rw no_ at h))
  ]

  where_indexed-Granted :
      (settings : Settings) (k : String) (client : Client) (c : Checkout.State checkouts)
      (x : State ext × Outcome Bool)
      → was_served (where_indexed ext checkouts settings k client c x).1 ≡ true
      → Granted (where_indexed ext checkouts settings k client c x).0.datasets.db k
  where_indexed-Granted settings k client c (s, ok true) h =
      with_policy-Granted settings k client (record { datasets = s; checked_out = c }) _ refl h
  where_indexed-Granted settings k client c (s, ok false) h = ground arith
  where_indexed-Granted settings k client c (s, err e) h = ground arith
  where_indexed-Granted settings k client c (s, panic) h = ground arith

  with_client-Granted :
      (settings : Settings) (k : String) (n : NodeState ext checkouts) (o : Outcome Client)
      → was_served (with_client ext checkouts settings k n o).1 ≡ true
      → ((client : Client) × (o ≡ ok client))
        × Granted (with_client ext checkouts settings k n o).0.datasets.db k
  with_client-Granted settings k n (ok client) h = (
    (client, refl),
    where_indexed-Granted settings k client n.checked_out (dataset_exists ext k n.datasets) h,
  )
  with_client-Granted settings k n (err e) h = ground arith
  with_client-Granted settings k n panic h = ground arith

  -- `getDataset` hands out data only where the request has a token of a client and the table has a
  -- row of the dataset whose policy grants access, whatever the services do and the cache holds.
  pub get_dataset-Granted :
      (settings : Settings) (header : List ℕ) (k : String) (n : NodeState ext checkouts)
      → was_served (get_dataset ext checkouts settings header k n).1 ≡ true
      → ((client : Client) × (client_of settings header ≡ ok client))
        × Granted (get_dataset ext checkouts settings header k n).0.datasets.db k
  unfolding get_dataset
  get_dataset-Granted settings header k n h =
      with_client-Granted settings k n (client_of settings header) h
