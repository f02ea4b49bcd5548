-- ===== src/Node/Index.antt =====
-- `IndexDataset` of core/node/node.go, and the handshakes. `ask` gives what the policy store replies
-- to a message.
pub mod Rows
use lohpi.Common.{
  if◌then◌else◌, empty_argument, network_error, Outcome, ok, err, panic, ℕ, String, Bool, Option,
  none, some, List, str_eq,
}
use lohpi.Proto.{Policy, Dataset, Node}
use lohpi.Messages.{Channel}
use lohpi.Indexer.{Services, State, dataset_exists, insert_dataset}
use lohpi.Node.Messaging.{IfritState, send_policy_store_policy_request, send_dataset_identifier}
use lohpi.PolicyStore.Core.{HandshakeResponse}

-- the dataset that `IndexDataset` inserts
abbrev pub indexed_dataset : String → Bool → Option Policy → Dataset
indexed_dataset dataset_id allow_multiple_checkouts p = record {
  identifier = dataset_id;
  policy = p;
  allow_multiple_checkouts = allow_multiple_checkouts;
}

module _ (ext : Services) (channel : Channel) (me : Node) where
  abbrev pub Indexing : Type 0
  Indexing = State ext × (IfritState channel me × Outcome (Unit {0}))

  -- the directory server is told once the dataset is inserted
  abbrev pub announce :
      String → String → IfritState channel me → State ext × Outcome (Unit {0}) → Indexing
  announce directory_ip dataset_id i (s, ok _) =
      (s, send_dataset_identifier channel me dataset_id directory_ip i)
  announce directory_ip dataset_id i (s, err e) = (s, (i, err e))
  announce directory_ip dataset_id i (s, panic) = (s, (i, panic))

  abbrev pub insert_reply :
      String
      → String
      → Bool
      → IfritState channel me
      → State ext
      → Outcome (Option Policy)
      → Indexing
  insert_reply directory_ip dataset_id allow i s (ok p) =
      announce directory_ip dataset_id i
        (insert_dataset ext dataset_id (some (indexed_dataset dataset_id allow p)) s)
  insert_reply directory_ip dataset_id allow i s (err e) = (s, (i, err e))
  insert_reply directory_ip dataset_id allow i s panic = (s, (i, panic))

  -- a dataset that is indexed already is asked for again
  abbrev pub ask_store :
      (channel.Bytes → channel.Bytes)
      → String
      → String
      → Bool
      → IfritState channel me
      → State ext × Outcome Bool
      → Indexing
  ask_store ask directory_ip dataset_id allow i (s, ok there) =
      insert_reply directory_ip dataset_id allow i s
        (send_policy_store_policy_request channel me ask dataset_id)
  ask_store ask directory_ip dataset_id allow i (s, err e) = (s, (i, err e))
  ask_store ask directory_ip dataset_id allow i (s, panic) = (s, (i, panic))

  -- `IndexDataset`
  unfoldable pub index_dataset :
      (channel.Bytes → channel.Bytes)
      → String
      → String
      → Bool
      → IfritState channel me
      → State ext
      → Indexing
  index_dataset ask directory_ip dataset_id allow i s =
      ask_store ask directory_ip dataset_id allow i (dataset_exists ext dataset_id s)

-- what the node knows of the policy store and the directory server
pub record Contacts : Type 0 where
  pub policy_store_ip : String
  pub policy_store_id : List ℕ
  pub directory_server_ip : String
  pub directory_server_id : List ℕ

-- a connection that is not made, or the reply to the call on it
abbrev pub Dialled : Type 0
Dialled = Option (Option HandshakeResponse)

abbrev pub met_directory_server : Contacts → Dialled → Contacts × Outcome (Unit {0})
met_directory_server c none = (c, err network_error)
met_directory_server c (some none) = (c, panic)
met_directory_server c (some (some r)) =
    (record c { directory_server_ip = r.ip; directory_server_id = r.id }, ok tt)

-- `HandshakeDirectoryServer`: an error of the call panics
unfoldable pub handshake_directory_server :
    String → (String → Dialled) → Contacts → Contacts × Outcome (Unit {0})
handshake_directory_server address dial c =
    if str_eq address "" then (c, err empty_argument) else met_directory_server c (dial address)

abbrev pub met_policy_store : Contacts → Dialled → Contacts × Outcome (Unit {0})
met_policy_store c none = (c, err network_error)
met_policy_store c (some none) = (c, err network_error)
met_policy_store c (some (some r)) =
    (record c { policy_store_ip = r.ip; policy_store_id = r.id }, ok tt)

-- `HandshakePolicyStore`
unfoldable pub handshake_policy_store :
    String → (String → Dialled) → Contacts → Contacts × Outcome (Unit {0})
handshake_policy_store address dial c =
    if str_eq address "" then (c, err empty_argument) else met_policy_store c (dial address)
