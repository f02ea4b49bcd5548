-- ===== src/Messages/Answering.antt =====
-- Signing and marshalling, where the wire answers.
use lohpi.Common.{Option-cases, ok, ℕ, ◌≡◌, refl, ◌≢◌, inl, inr, none, some, List}
use lohpi.Messages.{Message, as_received, Channel, add_message_signature, signed}

module _ (channel : Channel) where
  -- every message is marshalled, and everything is signed
  pub record IsAnswering : Type 0 where
    pub marshals : (msg : Message) → channel.marshal msg ≢ none
    pub signs : (bytes : channel.Bytes) → channel.sign bytes ≢ none

  pub marshalled :
      IsAnswering
      → (msg : Message)
      → (bytes : channel.Bytes) × (channel.marshal msg ≡ some bytes)
        × (channel.unmarshal bytes ≡ some (as_received msg))
  marshalled answering msg = elim (Option-cases (channel.marshal msg)) [
    | inl failed ↦ absurd (answering.marshals msg failed)
    | inr (bytes, e) ↦ (bytes, e, channel.unmarshal-marshal msg bytes e)
  ]

  pub signature_of :
      IsAnswering
      → (bytes : channel.Bytes) → (rs : List ℕ × List ℕ) × (channel.sign bytes ≡ some rs)
  signature_of answering bytes = elim (Option-cases (channel.sign bytes)) [
    | inl failed ↦ absurd (answering.signs bytes failed)
    | inr (rs, e) ↦ (rs, e)
  ]

  pub add_message_signature_lem :
      IsAnswering
      → (msg : Message)
      → (rs : List ℕ × List ℕ) × (add_message_signature channel msg
          ≡ ok (record msg { signature = some rs }))
  unfolding add_message_signature
  add_message_signature_lem answering msg =
      let (unsigned, e, _) = marshalled answering msg in
      let (rs, s) = signature_of answering unsigned in (rs, rw (e, s) refl)

  -- a message is signed and marshalled, and is decoded with its signature
  pub signed_lem :
      IsAnswering
      → (msg : Message)
      → (bytes : channel.Bytes) × (rs : List ℕ × List ℕ) × (signed channel msg ≡ ok bytes)
        × (channel.unmarshal bytes ≡ some (as_received (record msg { signature = some rs })))
  unfolding signed
  signed_lem answering msg =
      let (rs, s) = add_message_signature_lem answering msg in
      let (bytes, e, got) = marshalled answering (record msg { signature = some rs }) in
      (bytes, rs, rw (s, e) refl, got)
