-- ===== src/Messages/Memory.antt =====
-- A wire that never fails: the encoded message is the message as it is received.
use lohpi.Common.{ℕ, ◌≡◌, sym, ap, ◌≢◌, ◌⊎◌, inl, inr, Option, none, some, List, []}
use lohpi.Messages.{Message, as_received, Channel}
use lohpi.Messages.Answering.{IsAnswering}
use lohpi.Extern.Memory.{some-eq}

abbrev pub message_in : Message ⊎ List ℕ → Option Message
message_in (inl msg) = some msg
message_in (inr text) = none

some-not-none {ℓ} : {A : Type ℓ} (a : A) → some a ≢ none
some-not-none a h = cc

pub inl-eq :
    (msg : Message) (bytes : Message ⊎ List ℕ)
    → some (inl (as_received msg)) ≡ some bytes
    → message_in bytes ≡ some (as_received msg)
inl-eq msg bytes h = ap message_in (sym (some-eq _ _ h))

unfoldable pub plain_channel : Channel
plain_channel = record {
  Bytes = Message ⊎ List ℕ;
  of_text = λ text. inr text;
  marshal = λ msg. some (inl (as_received msg));
  unmarshal = message_in;
  sign = λ bytes. some ([], []);
  unmarshal-marshal = inl-eq;
}

pub plain_channel-IsAnswering : IsAnswering plain_channel
unfolding plain_channel
plain_channel-IsAnswering = record {
  marshals = λ msg. some-not-none (inl (as_received msg));
  signs = λ bytes. some-not-none ([], []);
}
