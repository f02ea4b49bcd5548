-- ===== src/PolicyStore/Request.antt =====
-- `processStorageNodePolicyRequest` of core/policystore/policy.go: a node asks for the policy of a
-- dataset that it stores. A dataset that the indexer does not have is restored from Git, or gets its
-- initial policy there.
pub mod Content
pub mod Answer
pub mod Registered
use lohpi.Common.{
  codes, nil_argument, Outcome, ok, err, panic, ◌>>=◌, ℕ, String, Bool, true, false, Option, none,
  some, List,
}
use lohpi.Proto.{Timestamp, Policy, Dataset, Node}
use lohpi.Messages.{Message, message_of_type, requested, sender_name, Channel, signed}
use lohpi.Indexer.{dataset, dataset_exists, insert_dataset, State}
use lohpi.Indexer
use lohpi.LookupService.{insert_dataset_node}
use lohpi.LookupService
use lohpi.PolicyStore.Git.{
  Files, parse_bool, git_store_policy, git_get_dataset_policy, git_dataset_exists,
}
use lohpi.PolicyStore.SetPolicy.{StoreState}

-- the two readings of the clock, for the date of creation and the date of application
abbrev pub Clock : Type 0
Clock = Timestamp × Timestamp

-- the policy with a content and no version: `getInitialDatasetPolicy` is the one with `false`
unfoldable pub unversioned_policy : String → Bool → Clock → Policy
unversioned_policy dataset_id content clock = record {
  dataset_identifier = dataset_id;
  content = content;
  version = 0;
  date_created = some clock.0;
  date_applied = some clock.1;
}

unfoldable pub get_initial_dataset_policy : String → Clock → Policy
unfolding unversioned_policy
get_initial_dataset_policy dataset_id clock = unversioned_policy dataset_id false clock

-- `newDataset`
abbrev pub dataset_with_policy : String → Policy → Dataset
dataset_with_policy dataset_id p = record {
  identifier = dataset_id;
  policy = some p;
  allow_multiple_checkouts = false;
}

module _ (indexer : Indexer.Services) (lookups : LookupService.Services) (files : Files) where
  open files use {Fs}

  abbrev pub stored : Fs → Outcome Fs → Fs × Outcome (Unit {0})
  stored fs (ok fs') = (fs', ok tt)
  stored fs (err e) = (fs, err e)
  stored fs panic = (fs, panic)

  abbrev pub store_again :
      List ℕ → List ℕ → Policy → Fs × Outcome (Unit {0}) → Fs × Outcome (Unit {0})
  store_again node dataset_id p (fs, ok _) = stored fs (git_store_policy files node dataset_id p fs)
  store_again node dataset_id p (fs, o) = (fs, o)

  -- the policy is stored in Git twice
  abbrev pub store_twice : List ℕ → List ℕ → Policy → Fs → Fs × Outcome (Unit {0})
  store_twice node dataset_id p fs =
      store_again node dataset_id p (stored fs (git_store_policy files node dataset_id p fs))

  abbrev pub new_with : Dataset → Fs × Outcome (Unit {0}) → Fs × Outcome Dataset
  new_with d (fs, o) = (fs, o >>= λ u. ok d)

  -- the content that Git has
  abbrev pub git_content : List ℕ → List ℕ → Fs → Outcome Bool
  git_content node dataset_id fs = git_get_dataset_policy files node dataset_id fs >>= parse_bool

  abbrev pub made_where : String → List ℕ → Clock → Fs → Bool → Fs × Outcome Dataset
  made_where dataset_id node clock fs false =
      let p = get_initial_dataset_policy dataset_id clock in
      new_with (dataset_with_policy dataset_id p) (store_twice node (codes dataset_id) p fs)
  made_where dataset_id node clock fs true = (
    fs,
    git_content node (codes dataset_id) fs >>= λ content.
        ok (dataset_with_policy dataset_id (unversioned_policy dataset_id content clock)),
  )

  -- the dataset that is made for the indexer
  unfoldable pub make_dataset : String → List ℕ → Clock → Fs → Fs × Outcome Dataset
  unfolding get_initial_dataset_policy unversioned_policy
  make_dataset dataset_id node clock fs =
      made_where dataset_id node clock fs (git_dataset_exists files node (codes dataset_id) fs)

  module _ (channel : Channel) (me : Node) where
    abbrev pub answer_policy : Option Policy → Outcome channel.Bytes
    answer_policy none = err nil_argument
    answer_policy (some p) =
        signed channel (record (message_of_type "") { sender = some me; policy = some p })

    abbrev pub answer_dataset : Outcome (Option Dataset) → Outcome channel.Bytes
    answer_dataset (ok none) = err nil_argument
    answer_dataset (ok (some d)) = answer_policy d.policy
    answer_dataset (err e) = err e
    answer_dataset panic = panic

    -- `pbMarshalDatasetPolicy`
    unfoldable pub marshal_dataset_policy : String → State indexer → Outcome channel.Bytes
    marshal_dataset_policy dataset_id s = answer_dataset (dataset indexer s dataset_id)

    abbrev pub StoreResult : Type 0
    StoreResult = StoreState indexer lookups files × Outcome channel.Bytes

    abbrev pub registered :
        String
        → StoreState indexer lookups files
        → LookupService.State lookups × Outcome (Unit {0})
        → StoreResult
    registered dataset_id s (l, ok _) =
        (record s { lookup = l }, marshal_dataset_policy dataset_id s.datasets)
    registered dataset_id s (l, err e) = (record s { lookup = l }, err e)
    registered dataset_id s (l, panic) = (record s { lookup = l }, panic)

    -- the sender is the node that stores the dataset
    abbrev pub register : String → Option Node → StoreState indexer lookups files → StoreResult
    register dataset_id sender s =
        registered dataset_id s (insert_dataset_node lookups dataset_id sender s.lookup)

    abbrev pub after_insertion :
        String
        → Option Node
        → StoreState indexer lookups files
        → State indexer × Outcome (Unit {0})
        → StoreResult
    after_insertion dataset_id sender s (d, ok _) =
        register dataset_id sender (record s { datasets = d })
    after_insertion dataset_id sender s (d, err e) = (record s { datasets = d }, err e)
    after_insertion dataset_id sender s (d, panic) = (record s { datasets = d }, panic)

    abbrev pub insert_made :
        String → Option Node → StoreState indexer lookups files → Fs × Outcome Dataset → StoreResult
    insert_made dataset_id sender s (fs, ok d) =
        after_insertion dataset_id sender (record s { work_tree = fs })
          (insert_dataset indexer dataset_id (some d) s.datasets)
    insert_made dataset_id sender s (fs, err e) = (record s { work_tree = fs }, err e)
    insert_made dataset_id sender s (fs, panic) = (record s { work_tree = fs }, panic)

    abbrev pub where_known :
        String
        → Option Node
        → Clock
        → StoreState indexer lookups files
        → State indexer × Outcome Bool
        → StoreResult
    where_known dataset_id sender clock s (d, ok true) =
        register dataset_id sender (record s { datasets = d })
    where_known dataset_id sender clock s (d, ok false) =
        insert_made dataset_id sender (record s { datasets = d })
          (make_dataset dataset_id (codes (sender_name sender)) clock s.work_tree)
    where_known dataset_id sender clock s (d, err e) = (record s { datasets = d }, err e)
    where_known dataset_id sender clock s (d, panic) = (record s { datasets = d }, panic)

    -- `processStorageNodePolicyRequest`
    unfoldable pub process_storage_node_policy_request :
        Message → Clock → StoreState indexer lookups files → StoreResult
    unfolding make_dataset marshal_dataset_policy
    process_storage_node_policy_request msg clock s =
        where_known (requested msg) msg.sender clock s
          (dataset_exists indexer (requested msg) s.datasets)
