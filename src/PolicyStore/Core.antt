-- ===== src/PolicyStore/Core.antt =====
-- The handlers of core/policystore/policy.go and the reading handlers of http.go: messages, gossip,
-- the handshake of a node, and the batcher that multicasts the queued policies.
pub mod Batcher
mod Tests
use lohpi.Common.{
  if◌then◌else◌, codes, nil_argument, not_found, codec_error, Outcome, ok, err, panic, ◌>>=◌,
  or_err, ℕ, String, Bool, false, Option, none, some, List, [], ◌∷◌, str_eq,
}
use lohpi.Proto.{Dataset, Node}
use lohpi.Messages.{Message, message_of_type, Channel, signed}
use lohpi.Indexer.{dataset, State}
use lohpi.Indexer
use lohpi.LookupService.{dataset_identifiers}
use lohpi.LookupService
use lohpi.Membership.{MembershipState, add_network_node}
use lohpi.Membership
use lohpi.PolicyStore.Git.{Files, format_bool}
use lohpi.PolicyStore.SetPolicy.{StoreState}
use lohpi.PolicyStore.Request.{Clock, StoreResult, process_storage_node_policy_request}
use lohpi.PolicyStore.Deltas.{Progress, resolve_dataset_deltas}

-- what `Handshake` returns
pub record HandshakeResponse : Type 0 where
  pub ip : String
  pub id : List ℕ

-- GetIfritAddress of a possibly nil node
abbrev pub get_ifrit_address : Option Node → String
get_ifrit_address none = ""
get_ifrit_address (some n) = n.ifrit_address

-- `ifritMembersAddress`, in the order in which `range` meets the nodes
unfoldable pub ifrit_members_address : List (String × Option Node) → List String
ifrit_members_address [] = []
ifrit_members_address ((k, n) ∷ nodes) = get_ifrit_address n ∷ ifrit_members_address nodes

module _ (members : Membership.Services) (me : Node) where
  abbrev pub welcomed :
      MembershipState members × Outcome (Unit {0})
      → MembershipState members × Outcome HandshakeResponse
  welcomed (s, ok _) = (s, ok (record { ip = me.ifrit_address; id = me.id }))
  welcomed (s, err e) = (s, err e)
  welcomed (s, panic) = (s, panic)

  -- `Handshake`
  unfoldable pub handshake :
      Option Node → MembershipState members → MembershipState members × Outcome HandshakeResponse
  handshake none s = (s, err nil_argument)
  handshake (some n) s = welcomed (add_network_node members n.name (some n) s)

-- the gossip content of the Ifrit client, and what the handler returns
module _ (channel : Channel) (verify : List ℕ × List ℕ → channel.Bytes → Bool) where
  open channel use {Bytes, of_text}

  abbrev pub verified_by : Option (List ℕ × List ℕ) → Option Bytes → Bool
  verified_by rs none = false
  verified_by none (some unsigned) = verify ([], []) unsigned
  verified_by (some rs) (some unsigned) = verify rs unsigned

  -- `verifyPolicyStoreGossipSignature`: the message is checked without its signature
  unfoldable pub verify_policy_store_gossip_signature : Message → Bool
  verify_policy_store_gossip_signature msg =
      verified_by msg.signature (channel.marshal (record msg { signature = none }))

  abbrev pub gossip_decoded : Bytes → Option Bytes → Option Message → Option Bytes × Outcome Bytes
  gossip_decoded bytes content none = (content, panic)
  gossip_decoded bytes content (some msg) =
      if verify_policy_store_gossip_signature msg
      then (
        if str_eq msg.type "MSG_TYPE_PROBE" then some bytes else content,
        ok (of_text (codes "MSG_TYPE_OK")),
      )
      else (content, ok (of_text []))

  -- `gossipHandler`
  unfoldable pub gossip_handler : Bytes → Option Bytes → Option Bytes × Outcome Bytes
  unfolding verify_policy_store_gossip_signature
  gossip_handler bytes content = gossip_decoded bytes content (channel.unmarshal bytes)

module _ (indexer : Indexer.Services) (lookups : LookupService.Services) (files : Files)
    (as_bytes : String → indexer.Bytes) (channel : Channel) (me : Node) where
  abbrev pub marshal_deltas : Outcome (List (String × Dataset)) → Outcome channel.Bytes
  marshal_deltas deltas = deltas >>= λ sets.
      signed channel (record (message_of_type "") { sender = some me; dataset_map = some sets })

  -- the delta set, marshalled by `pbMarshalDatasetsMap`
  abbrev pub synchronized :
      StoreState indexer lookups files
      → Progress indexer as_bytes
      → StoreResult indexer lookups files channel me
  synchronized s (d, deltas) = (record s { datasets = d }, marshal_deltas deltas)

  abbrev pub message_decoded :
      Clock
      → StoreState indexer lookups files
      → Option Message
      → StoreResult indexer lookups files channel me
  message_decoded clock s none = (s, err codec_error)
  message_decoded clock s (some msg) =
      if str_eq msg.type "MSG_SYNCHRONIZE_DATASET_IDENTIFIERS"
      then synchronized s (resolve_dataset_deltas indexer as_bytes clock msg.dataset_map s.datasets)
      else if str_eq msg.type "MSG_TYPE_GET_DATASET_POLICY"
      then process_storage_node_policy_request indexer lookups files channel me msg clock s
      else (s, or_err codec_error (channel.marshal (message_of_type "MSG_TYPE_OK")))

  -- `messageHandler`: no signature is verified, since `verifyMessageSignature` returns nil at once
  unfoldable pub message_handler :
      channel.Bytes
      → Clock
      → StoreState indexer lookups files
      → StoreResult indexer lookups files channel me
  message_handler bytes clock s = message_decoded clock s (channel.unmarshal bytes)

module _ (indexer : Indexer.Services) where
  abbrev pub policy_text : Outcome (Option Dataset) → Outcome (List ℕ)
  policy_text (ok none) = err not_found
  policy_text (ok (some d)) = elim d.policy [
    | none ↦ err not_found
    | some p ↦ ok (format_bool p.content)
  ]
  policy_text (err e) = err e
  policy_text panic = panic

  -- `getObjectPolicy`: the text of the policy, or the error that is answered as 404
  unfoldable pub get_object_policy : String → State indexer → Outcome (List ℕ)
  get_object_policy dataset_id s = policy_text (dataset indexer s dataset_id)
