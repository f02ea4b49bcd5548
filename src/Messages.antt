-- ===== src/Messages.antt =====
-- The messages that the nodes, the policy store and the directory server exchange, and how they are
-- signed: `pbAddMessageSignature`, `pbMarshalAcknowledgeMessage` and the functions beside them in
-- core/policystore/messaging.go and core/node/messaging.go. Protobuf and Ifrit are the record `Channel`.
pub mod Answering
pub mod Memory
use lohpi.Common.{
  codec_error, network_error, Outcome, ok, ◌>>=◌, or_err, ℕ, String, ◌≡◌, Bool, false, Option, none,
  some, List, ◌∷◌, map,
}
use lohpi.Extern.{map_some}
use lohpi.Proto.{Policy, Dataset, Node, Probe, empty_policy}

-- Message of protobuf/service.pb.go, with the fields that the modelled code reads or writes
pub record Message : Type 0 where
  pub type : String
  pub sender : Option Node
  pub string_value : String
  pub bool_value : Bool
  pub policy_request : Option String  -- PolicyRequest, which has an identifier only
  pub policy : Option Policy
  pub probe : Option Probe
  pub dataset_map : Option (List (String × Dataset))
  pub gossip_bodies : Option (List (Option Policy))
  pub signature : Option (List ℕ × List ℕ)

-- `&pb.Message{Type: t}`
abbrev pub message_of_type : String → Message
message_of_type t = record {
  type = t;
  sender = none;
  string_value = "";
  bool_value = false;
  policy_request = none;
  policy = none;
  probe = none;
  dataset_map = none;
  gossip_bodies = none;
  signature = none;
}

-- protobuf has no empty map: it is decoded as nil
abbrev pub nil_if_empty {ℓ} : {A : Type ℓ} → Option (List A) → Option (List A)
nil_if_empty (some (a ∷ l)) = some (a ∷ l)
nil_if_empty _ = none

-- a nil pointer in a list is encoded as the zero value
abbrev pub body_received : Option Policy → Option Policy
body_received none = some empty_policy
body_received (some p) = some p

-- what is decoded from the encoding of a message
abbrev pub as_received : Message → Message
as_received msg = record msg {
  dataset_map = nil_if_empty msg.dataset_map;
  gossip_bodies = map_some (map body_received) msg.gossip_bodies;
}

-- GetPolicyRequest().GetIdentifier()
abbrev pub requested : Message → String
requested msg = elim msg.policy_request [ none ↦ "" | some k ↦ k ]

-- GetSender().GetName()
abbrev pub sender_name : Option Node → String
sender_name none = ""
sender_name (some n) = n.name

-- proto.Marshal, proto.Unmarshal and the signatures of the Ifrit client
pub record Channel : Type 1 where
  pub Bytes : Type 0
  pub of_text : List ℕ → Bytes  -- the bytes of a text
  pub marshal : Message → Option Bytes
  pub unmarshal : Bytes → Option Message
  pub sign : Bytes → Option (List ℕ × List ℕ)
  pub unmarshal-marshal :
      (msg : Message) (bytes : Bytes)
      → marshal msg ≡ some bytes
      → unmarshal bytes ≡ some (as_received msg)

module _ (channel : Channel) where
  open channel use {Bytes, marshal, sign}

  -- `pbAddMessageSignature`: the signature is that of the unsigned message
  unfoldable pub add_message_signature : Message → Outcome Message
  add_message_signature msg =
      or_err codec_error (marshal msg)
      >>= (λ unsigned. or_err network_error (sign unsigned))
      >>= λ rs. ok (record msg { signature = some rs })

  -- a message that is signed and marshalled
  unfoldable pub signed : Message → Outcome Bytes
  unfolding add_message_signature
  signed msg = add_message_signature msg >>= λ msg'. or_err codec_error (marshal msg')

  -- `pbMarshalAcknowledgeMessage`
  unfoldable pub marshal_acknowledge_message : Outcome Bytes
  unfolding signed
  marshal_acknowledge_message = signed (message_of_type "MSG_TYPE_OK")
