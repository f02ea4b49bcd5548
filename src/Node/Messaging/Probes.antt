-- ===== src/Node/Messaging/Probes.antt =====
-- What the policy store receives for a probe.
use lohpi.Common.{ok, ℕ, String, ◌≡◌, refl, some, List, [], ◌∷◌, ◌++◌}
use lohpi.Proto.{Node}
use lohpi.Messages.Answering.{IsAnswering, marshalled, signature_of}
use lohpi.Messages.{Message, as_received, Channel}
use lohpi.Node.Messaging.{IfritState, probe_ack, resigned, acknowledge_probe}

module _ (channel : Channel) (me : Node) where
  resigned-decoded :
      IsAnswering channel
      → (msg : Message)
      → (bytes : channel.Bytes) × (rs : List ℕ × List ℕ) × (resigned channel me msg ≡ ok bytes)
        × (channel.unmarshal bytes ≡ some (as_received (record msg { signature = some rs })))
  resigned-decoded answering msg =
      let (unsigned, e, _) = marshalled channel answering (probe_ack channel me msg) in
      let (rs, s) = signature_of channel answering unsigned in
      let (bytes, f, decoded) = marshalled channel answering (record msg { signature = some rs }) in
      (bytes, rs, rw (e, s, f) refl, decoded)

  -- the call has sent one message, which is received as this one with some signature
  abbrev pub SendsBack : Message → String → IfritState channel me → IfritState channel me → Type 0
  SendsBack msg recipient before after =
      (bytes : channel.Bytes) × (rs : List ℕ × List ℕ) × (after.sent
        ≡ before.sent ++ (recipient, bytes) ∷ [])
      × (channel.unmarshal bytes ≡ some (as_received (record msg { signature = some rs })))

  -- While the wire answers, `acknowledgeProbe` returns without an error, keeps the probe as the
  -- content that is gossiped, and sends one message to the policy store: the probe as it came, of
  -- the same type and under a new signature, and not the acknowledgement.
  pub acknowledge_probe-SendsBack :
      IsAnswering channel
      → (ip : String) (msg : Message) (i : IfritState channel me)
      → let result = acknowledge_probe channel me ip msg i in
        (result.1 ≡ ok (channel.of_text []))
        × (result.0.gossip_content ≡ channel.marshal msg)
        × SendsBack msg ip i result.0
  unfolding acknowledge_probe
  acknowledge_probe-SendsBack answering ip msg i =
      let (content, e, _) = marshalled channel answering msg in
      let (bytes, rs, made, decoded) = resigned-decoded answering msg in
      rw (e, made) ((refl, refl, (bytes, rs, refl, decoded)))
