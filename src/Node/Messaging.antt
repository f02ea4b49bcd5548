-- ===== src/Node/Messaging.antt =====
-- The messages that a node sends, core/node/messaging.go, and the handlers of core/node/node.go that
-- are called for a message of another part. What `SendTo` is given is the last component of a
-- result; the text of `String` is a parameter.
pub mod Probes
mod Tests
use lohpi.Common.{
  if◌then◌else◌, empty_argument, codec_error, network_error, Outcome, ok, err, panic, ◌>>=◌, or_err,
  ℕ, String, Bool, Option, none, some, List, [], ◌∷◌, ◌++◌, str_eq,
}
use lohpi.Proto.{Policy, Node}
use lohpi.Messages.{
  Message, message_of_type, Channel, add_message_signature, signed, marshal_acknowledge_message,
}
use lohpi.Indexer.{Services, State}
use lohpi.Node.Batch.{process_policy_batch}
use lohpi.PolicyStore.Git.{parse_bool}

abbrev pub or_crash {ℓ} : {A : Type ℓ} → Option A → Outcome A
or_crash none = panic
or_crash (some a) = ok a

-- what the node keeps of the Ifrit network: the content that it gossips
pub record Ifrit (Bytes : Type 0) : Type 0 where
  pub gossip_content : Option Bytes
  pub sent : List (String × Bytes)

abbrev pub send_to : {Bytes : Type 0} → String → Bytes → Ifrit Bytes → Ifrit Bytes
send_to recipient bytes i = record i { sent = i.sent ++ (recipient, bytes) ∷ [] }

module _ (channel : Channel) (me : Node) where
  open channel use {Bytes, of_text}

  abbrev pub IfritState : Type 0
  IfritState = Ifrit Bytes

  -- the request of `pbSendPolicyStorePolicyRequest`
  abbrev pub policy_request_message : String → Message
  policy_request_message dataset_id = record (message_of_type "MSG_TYPE_GET_DATASET_POLICY") {
    sender = some me;
    policy_request = some dataset_id;
  }

  unfoldable pub policy_request_bytes : String → Outcome Bytes
  policy_request_bytes dataset_id =
      add_message_signature channel (policy_request_message dataset_id) >>= λ msg.
      or_crash (channel.marshal msg)

  -- the policy of a reply; a reply that cannot be decoded panics
  unfoldable pub policy_of_reply : Bytes → Outcome (Option Policy)
  policy_of_reply bytes = or_crash (channel.unmarshal bytes) >>= λ msg. ok msg.policy

  -- `pbSendPolicyStorePolicyRequest`, where `ask` gives what the policy store replies to a message
  unfoldable pub send_policy_store_policy_request :
      (Bytes → Bytes) → String → Outcome (Option Policy)
  unfolding policy_request_bytes policy_of_reply
  send_policy_store_policy_request ask dataset_id =
      policy_request_bytes dataset_id >>= λ bytes. policy_of_reply (ask bytes)

  -- the message of `pbSendDatsetIdentifier`
  abbrev pub identifier_message : String → Message
  identifier_message dataset_id = record (message_of_type "MSG_TYPE_ADD_DATASET_IDENTIFIER") {
    sender = some me;
    string_value = dataset_id;
  }

  -- what is sent, or the error that is returned
  abbrev pub sent_signed : String → Message → IfritState → IfritState × Outcome (Unit {0})
  sent_signed recipient msg i = elim (signed channel msg) [
    | ok bytes ↦ (send_to recipient bytes i, ok tt)
    | err e ↦ (i, err e)
    | panic ↦ (i, panic)
  ]

  -- `pbSendDatsetIdentifier`
  unfoldable pub send_dataset_identifier :
      String → String → IfritState → IfritState × Outcome (Unit {0})
  send_dataset_identifier dataset_id recipient i =
      sent_signed recipient (identifier_message dataset_id) i

  -- `pbResolveDatsetIdentifiers`: the message names no identifiers
  unfoldable pub send_dataset_identifiers : String → IfritState → IfritState × Outcome (Unit {0})
  send_dataset_identifiers recipient i =
      sent_signed recipient
        (record (message_of_type "MSG_TYPE_RESOLVE_DATASET_IDENTIFIERS") { sender = some me }) i

  abbrev pub revocation_message : String → Bool → Message
  revocation_message dataset_id content = record (message_of_type "MSG_POLICY_REVOCATION_UPDATE") {
    sender = some me;
    string_value = dataset_id;
    bool_value = content;
  }

  abbrev pub send_revocation :
      String → String → IfritState → Outcome Bool → IfritState × Outcome (Unit {0})
  send_revocation recipient dataset_id i (ok content) =
      sent_signed recipient (revocation_message dataset_id content) i
  send_revocation recipient dataset_id i (err e) = (i, err e)
  send_revocation recipient dataset_id i panic = (i, panic)

  -- `pbSendDatasetRevocationUpdate`
  unfoldable pub send_dataset_revocation_update :
      String → String → List ℕ → IfritState → IfritState × Outcome (Unit {0})
  send_dataset_revocation_update recipient dataset_id [] i = (i, err empty_argument)
  send_dataset_revocation_update recipient dataset_id (c ∷ content) i =
      if str_eq dataset_id ""
      then (i, err empty_argument)
      else send_revocation recipient dataset_id i (parse_bool (c ∷ content))

  -- the acknowledgement that `acknowledgeProbe` signs
  abbrev pub probe_ack : Message → Message
  probe_ack msg = record (message_of_type "MSG_TYPE_PROBE_ACK") {
    sender = some me;
    probe = msg.probe;
  }

  -- the bytes that `acknowledgeProbe` sends: the probe under the signature of the acknowledgement
  abbrev pub resigned : Message → Outcome Bytes
  resigned msg =
      or_err codec_error (channel.marshal (probe_ack msg))
      >>= (λ unsigned. or_err network_error (channel.sign unsigned))
      >>= λ rs. or_err codec_error (channel.marshal (record msg { signature = some rs }))

  abbrev pub acknowledged : String → IfritState → Outcome Bytes → IfritState × Outcome Bytes
  acknowledged recipient i (ok bytes) = (send_to recipient bytes i, ok (of_text []))
  acknowledged recipient i (err e) = (i, err e)
  acknowledged recipient i panic = (i, panic)

  abbrev pub spread : String → Message → IfritState → Option Bytes → IfritState × Outcome Bytes
  spread policy_store_ip msg i none = (i, err codec_error)
  spread policy_store_ip msg i (some content) =
      acknowledged policy_store_ip (record i { gossip_content = some content }) (resigned msg)

  -- `acknowledgeProbe`; `verifyPolicyStoreMessage` accepts every message
  unfoldable pub acknowledge_probe : String → Message → IfritState → IfritState × Outcome Bytes
  acknowledge_probe policy_store_ip msg i = spread policy_store_ip msg i (channel.marshal msg)

  module _ (ext : Services) (info : List ℕ) where
    pub record Connected : Type 0 where
      pub datasets : State ext
      pub ifrit : IfritState

    abbrev pub with_ifrit : Connected → IfritState × Outcome Bytes → Connected × Outcome Bytes
    with_ifrit n (i, o) = (record n { ifrit = i }, o)

    -- a batch is answered with nothing
    abbrev pub with_batch : Connected → State ext × Outcome (Unit {0}) → Connected × Outcome Bytes
    with_batch n (s, o) = (record n { datasets = s }, o >>= λ u. ok (of_text []))

    abbrev pub keep_gossip : Bytes → Connected → Connected
    keep_gossip bytes n = record n { ifrit = record n.ifrit { gossip_content = some bytes } }

    -- the switch on the type of a message
    abbrev pub node_decoded :
        String → Bytes → Connected → Option Message → Connected × Outcome Bytes
    node_decoded policy_store_ip bytes n none = (n, err codec_error)
    node_decoded policy_store_ip bytes n (some msg) =
        if str_eq msg.type "MSG_TYPE_GET_NODE_INFO"
        then (n, ok (of_text info))
        else if str_eq msg.type "MSG_TYPE_GET_DATASET_IDENTIFIERS"
        then (n, signed channel (message_of_type ""))
        else if str_eq msg.type "MSG_TYPE_POLICY_STORE_UPDATE"
        then with_batch (keep_gossip bytes n)
            (process_policy_batch ext msg.gossip_bodies n.datasets)
        else if str_eq msg.type "MSG_TYPE_PROBE"
        then with_ifrit n (acknowledge_probe policy_store_ip msg n.ifrit)
        else (n, marshal_acknowledge_message channel)

    -- `messageHandler`: no signature is verified, since `verifyMessageSignature` returns nil at once
    unfoldable pub node_message_handler : String → Bytes → Connected → Connected × Outcome Bytes
    unfolding acknowledge_probe
    node_message_handler policy_store_ip bytes n =
        node_decoded policy_store_ip bytes n (channel.unmarshal bytes)

  -- `gossipHandler`: a gossip message that can be decoded is dropped
  unfoldable pub node_gossip_handler : Bytes → Outcome Bytes
  node_gossip_handler bytes =
      or_err codec_error (channel.unmarshal bytes) >>= λ msg. ok (of_text [])
