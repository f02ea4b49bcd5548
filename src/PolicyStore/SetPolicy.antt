-- ===== src/PolicyStore/SetPolicy.antt =====
-- `setObjectPolicy` of core/policystore/http.go: a request changes the policy of a dataset in the
-- indexer and in Git, and queues it for the network. What a failed call of Git leaves in the work
-- tree is not described; the goroutine that queues the policy runs at once.
pub mod Versions
pub mod Bodies
use lohpi.Common.{
  codes, Outcome, ok, err, panic, ℕ, ◌+◌, ◌%◌, ◌^◌, String, Bool, Option, none, some, List, [], ◌∷◌,
  ◌++◌,
}
use lohpi.Proto.{Timestamp, Policy, Dataset, Node}
use lohpi.Indexer.{State, dataset, set_dataset_policy}
use lohpi.Indexer
use lohpi.LookupService.{dataset_node}
use lohpi.LookupService
use lohpi.PolicyStore.Git.{Files, git_store_policy}

-- the status codes of the replies
pub data StoreReply : Type 0 where
  accepted missing failed crashed : StoreReply
  -- what `DecodeJSONBody` refuses, with the code that it gives
  malformed : ℕ → StoreReply

-- the body of the request: the field Policy of the struct that it is decoded into, or the code of
-- an error
pub data Body : Type 0 where
  decoded : Bool → Body
  undecoded : ℕ → Body

-- the policy that is made of the old one; the version is a uint64
abbrev pub next_policy : String → Bool → Policy → Timestamp → Policy
next_policy dataset_id content old now = record {
  dataset_identifier = dataset_id;
  content = content;
  version = (old.version + 1) % 2 ^ 64;
  date_created = old.date_created;
  date_applied = some now;
}

module _ (indexer : Indexer.Services) (lookups : LookupService.Services) (files : Files) where
  pub record StoreState : Type 0 where
    pub datasets : State indexer
    pub lookup : LookupService.State lookups
    pub work_tree : files.Fs
    pub policy_chan : List Policy

  -- the policy is queued once Git has it
  abbrev pub queue_stored : Policy → StoreState → Outcome files.Fs → StoreState × StoreReply
  queue_stored new s (ok fs) =
      (record s { work_tree = fs; policy_chan = s.policy_chan ++ new ∷ [] }, accepted)
  queue_stored new s (err e) = (s, failed)
  queue_stored new s panic = (s, crashed)

  abbrev pub with_node :
      String → Policy → StoreState → Outcome (Option Node) → StoreState × StoreReply
  with_node dataset_id new s (ok (some node)) =
      queue_stored new s
        (git_store_policy files (codes node.name) (codes dataset_id) new s.work_tree)
  with_node dataset_id new s (ok none) = (s, missing)
  with_node dataset_id new s (err e) = (s, missing)
  with_node dataset_id new s panic = (s, crashed)

  abbrev pub after_set :
      String → Policy → StoreState → State indexer × Outcome (Unit {0}) → StoreState × StoreReply
  after_set dataset_id new s (d, ok _) =
      with_node dataset_id new (record s { datasets = d })
        (dataset_node lookups s.lookup dataset_id)
  after_set dataset_id new s (d, err e) = (record s { datasets = d }, failed)
  after_set dataset_id new s (d, panic) = (record s { datasets = d }, crashed)

  abbrev pub with_old :
      String → Bool → Timestamp → StoreState → Option Policy → StoreState × StoreReply
  with_old dataset_id content now s none = (s, missing)
  with_old dataset_id content now s (some old) =
      let new = next_policy dataset_id content old now in
      after_set dataset_id new s (set_dataset_policy indexer dataset_id (some new) s.datasets)

  abbrev pub with_body :
      String → Body → Timestamp → StoreState → Option Policy → StoreState × StoreReply
  with_body dataset_id (undecoded code) now s policy = (s, malformed code)
  with_body dataset_id (decoded content) now s policy = with_old dataset_id content now s policy

  abbrev pub with_dataset :
      String → Body → Timestamp → StoreState → Outcome (Option Dataset) → StoreState × StoreReply
  with_dataset dataset_id body now s (ok (some d)) = with_body dataset_id body now s d.policy
  with_dataset dataset_id body now s (ok none) = (s, missing)
  with_dataset dataset_id body now s (err e) = (s, missing)
  with_dataset dataset_id body now s panic = (s, crashed)

  -- `setObjectPolicy`
  unfoldable pub set_object_policy :
      String → Body → Timestamp → StoreState → StoreState × StoreReply
  set_object_policy dataset_id body now s =
      with_dataset dataset_id body now s (dataset indexer s.datasets dataset_id)
