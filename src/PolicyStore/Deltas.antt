-- ===== src/PolicyStore/Deltas.antt =====
-- `resolveDatasetDeltas` of core/policystore/policy.go, which compares the datasets of a node with
-- those of the policy store. The incoming datasets are an association list in the order in which
-- `range` meets them.
pub mod Fresh
mod Tests
use lohpi.Common.{
  ltb, if◌then◌else◌, nil_argument, Outcome, ok, err, panic, ◌>>=◌, assign, ℕ, String, Bool, true,
  false, ◌||◌, Option, none, some, List, [], ◌∷◌, str_eq,
}
use lohpi.Proto.{Timestamp, Policy, Dataset, get_version}
use lohpi.Indexer.{dataset, dataset_exists, insert_dataset, remove_dataset, State}
use lohpi.Indexer
use lohpi.Indexer.All.{datasets}
use lohpi.PolicyStore.Request.{
  Clock, unversioned_policy, get_initial_dataset_policy, dataset_with_policy,
}

-- `currentDataset.Policy.DateApplied = pbtime.Now()`
abbrev pub applied_at : Timestamp → Policy → Policy
applied_at now p = record p { date_applied = some now }

-- the entry of a dataset whose policy is stale at the node
abbrev pub stale_entry :
    Timestamp
    → String
    → ℕ
    → Option Policy
    → Dataset
    → List (String × Dataset)
    → List (String × Dataset)
stale_entry now k version none current deltas = deltas
stale_entry now k version (some p) current deltas =
    if ltb version p.version
    then assign k (record current { policy = some (applied_at now p) }) deltas
    else deltas

abbrev pub has_identifier : String → List (String × Dataset) → Bool
has_identifier k [] = false
has_identifier k ((j, d) ∷ sets) = str_eq k d.identifier || has_identifier k sets

-- the identifiers of the current datasets that are not among the incoming ones
unfoldable pub superfluous_datasets :
    List (String × Dataset) → List (String × Dataset) → List String
superfluous_datasets incoming [] = []
superfluous_datasets incoming ((j, d) ∷ current) =
    let rest = superfluous_datasets incoming current in
    if has_identifier d.identifier incoming then rest else d.identifier ∷ rest

module _ (indexer : Indexer.Services) (as_bytes : String → indexer.Bytes) where
  -- the indexer, and the delta set
  abbrev pub Progress : Type 0
  Progress = State indexer × Outcome (List (String × Dataset))

  -- `Dataset` may find nothing: the version of nil is 0 and no version is below it
  abbrev pub with_current :
      Timestamp
      → String
      → Dataset
      → State indexer
      → List (String × Dataset)
      → Outcome (Option Dataset)
      → Progress
  with_current now k incoming s deltas (ok none) = (s, ok deltas)
  with_current now k incoming s deltas (ok (some current)) =
      (s, ok (stale_entry now k (get_version incoming.policy) current.policy current deltas))
  with_current now k incoming s deltas (err e) = (s, err e)
  with_current now k incoming s deltas panic = (s, panic)

  abbrev pub add_stale :
      Timestamp → String → Dataset → List (String × Dataset) → State indexer → Progress
  add_stale now k incoming deltas s = with_current now k incoming s deltas (dataset indexer s k)

  -- a dataset that could not be inserted is passed over
  abbrev pub after_new :
      Timestamp
      → String
      → Dataset
      → Dataset
      → List (String × Dataset)
      → State indexer × Outcome (Unit {0})
      → Progress
  after_new now k incoming d deltas (s, ok _) =
      add_stale now k incoming (assign incoming.identifier d deltas) s
  after_new now k incoming d deltas (s, err e) = (s, ok deltas)
  after_new now k incoming d deltas (s, panic) = (s, panic)

  abbrev pub add_missing :
      Clock → String → Dataset → List (String × Dataset) → State indexer × Outcome Bool → Progress
  add_missing clock k incoming deltas (s, ok true) = add_stale clock.1 k incoming deltas s
  add_missing clock k incoming deltas (s, ok false) =
      let d = dataset_with_policy k (get_initial_dataset_policy incoming.identifier clock) in
      after_new clock.1 k incoming d deltas (insert_dataset indexer incoming.identifier (some d) s)
  add_missing clock k incoming deltas (s, err e) = (s, err e)
  add_missing clock k incoming deltas (s, panic) = (s, panic)

  abbrev pub next_entry : (List (String × Dataset) → State indexer → Progress) → Progress → Progress
  next_entry rest (s, ok deltas) = rest deltas s
  next_entry rest (s, o) = (s, o)

  -- the loop over the incoming datasets
  unfoldable pub add_deltas :
      Clock → List (String × Dataset) → List (String × Dataset) → State indexer → Progress
  unfolding get_initial_dataset_policy unversioned_policy
  add_deltas clock [] deltas s = (s, ok deltas)
  add_deltas clock ((k, incoming) ∷ sets) deltas s =
      next_entry (add_deltas clock sets)
        (add_missing clock k incoming deltas (dataset_exists indexer incoming.identifier s))

  -- an error of `RemoveDataset` is ignored
  abbrev pub removed_one :
      (State indexer → State indexer × Outcome (Unit {0}))
      → State indexer × Outcome (Unit {0})
      → State indexer × Outcome (Unit {0})
  removed_one rest (s, panic) = (s, panic)
  removed_one rest (s, _) = rest s

  unfoldable pub remove_superfluous :
      List String → State indexer → State indexer × Outcome (Unit {0})
  remove_superfluous [] s = (s, ok tt)
  remove_superfluous (k ∷ ids) s = removed_one (remove_superfluous ids) (remove_dataset indexer k s)

  abbrev pub with_removed : List (String × Dataset) → State indexer × Outcome (Unit {0}) → Progress
  with_removed deltas (s, o) = (s, o >>= λ u. ok deltas)

  abbrev pub with_deltas : List (String × Dataset) → List (String × Dataset) → Progress → Progress
  with_deltas incoming current (s, ok deltas) =
      with_removed deltas (remove_superfluous (superfluous_datasets incoming current) s)
  with_deltas incoming current (s, o) = (s, o)

  abbrev pub or_empty : Option (List (String × Dataset)) → List (String × Dataset)
  or_empty none = []
  or_empty (some sets) = sets

  abbrev pub with_current_datasets :
      Clock
      → List (String × Dataset)
      → State indexer
      → Outcome (Option (List (String × Dataset)))
      → Progress
  with_current_datasets clock incoming s (ok current) =
      with_deltas incoming (or_empty current) (add_deltas clock incoming [] s)
  with_current_datasets clock incoming s (err e) = (s, err e)
  with_current_datasets clock incoming s panic = (s, panic)

  -- `resolveDatasetDeltas`: the current datasets are read before the new ones are inserted
  unfoldable pub resolve_dataset_deltas :
      Clock → Option (List (String × Dataset)) → State indexer → Progress
  unfolding add_deltas remove_superfluous superfluous_datasets
  resolve_dataset_deltas clock none s = (s, err nil_argument)
  resolve_dataset_deltas clock (some incoming) s =
      with_current_datasets clock incoming s (datasets indexer as_bytes s)
