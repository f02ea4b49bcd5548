-- ===== src/Node/Batch.antt =====
-- `processPolicyBatch` and `applyPolicy` of core/node/node.go: the policies of a gossip message
-- are applied, one by one, to the datasets that the node has indexed.
pub mod Newest
pub mod Held
pub mod Step
pub mod Fold
pub mod Stale
use lohpi.Common.{
  leb, if◌then◌else◌, nil_argument, empty_argument, not_found, Outcome, ok, err, panic, String,
  Bool, true, false, Option, none, some, List, [], ◌∷◌,
}
use lohpi.Proto.{Policy, Dataset, get_version, get_dataset_identifier}
use lohpi.Indexer.{Services, State, dataset, dataset_exists, set_dataset_policy}

module _ (ext : Services) where
  -- the version guard of `applyPolicy`, and the update behind it
  abbrev pub apply_newer :
      String → Option Policy → State ext → Option Policy → State ext × Outcome (Unit {0})
  apply_newer dataset_id p s old =
      if leb (get_version p) (get_version old)
      then (s, ok tt)
      else set_dataset_policy ext dataset_id p s

  abbrev pub apply_to :
      String → Option Policy → State ext → Outcome (Option Dataset) → State ext × Outcome (Unit {0})
  apply_to dataset_id p s panic = (s, panic)
  apply_to dataset_id p s (err e) = (s, err e)
  apply_to dataset_id p s (ok none) = (s, err nil_argument)
  apply_to dataset_id p s (ok (some d)) = apply_newer dataset_id p s d.policy

  abbrev pub apply_where :
      String → Option Policy → State ext × Outcome Bool → State ext × Outcome (Unit {0})
  apply_where dataset_id p (s, panic) = (s, panic)
  apply_where dataset_id p (s, err e) = (s, err e)
  apply_where dataset_id p (s, ok false) = (s, err not_found)
  apply_where dataset_id p (s, ok true) = apply_to dataset_id p s (dataset ext s dataset_id)

  -- `applyPolicy`
  unfoldable pub apply_policy : Option Policy → State ext → State ext × Outcome (Unit {0})
  apply_policy p s =
      let dataset_id = get_dataset_identifier p in
      apply_where dataset_id p (dataset_exists ext dataset_id s)

  -- an error of one policy is logged; a panic ends the handler
  abbrev pub go_on :
      (State ext → State ext × Outcome (Unit {0}))
      → State ext × Outcome (Unit {0})
      → State ext × Outcome (Unit {0})
  go_on rest (s, panic) = (s, panic)
  go_on rest (s, _) = rest s

  -- the loop over the bodies of the gossip message
  unfoldable pub apply_all : List (Option Policy) → State ext → State ext × Outcome (Unit {0})
  apply_all [] s = (s, ok tt)
  apply_all (p ∷ ps) s = go_on (apply_all ps) (apply_policy p s)

  -- `processPolicyBatch`, on the gossip message and its bodies: protobuf decodes an empty list of
  -- bodies as nil
  unfoldable pub process_policy_batch :
      Option (List (Option Policy)) → State ext → State ext × Outcome (Unit {0})
  unfolding apply_all
  process_policy_batch none s = (s, err nil_argument)
  process_policy_batch (some []) s = (s, err empty_argument)
  process_policy_batch (some (p ∷ ps)) s = apply_all (p ∷ ps) s
