-- ===== src/Multicast/Batch/Laws.antt =====
-- What a batch carries, and what an error leaves behind.
use lohpi.Common.{
  Error, Outcome, ok, err, panic, ℕ, String, ◌≡◌, refl, Option, none, some, List, [], ◌∷◌, map,
  arith,
}
use lohpi.Proto.{Policy}
use lohpi.Multicast.Batch.{GossipMessage, Wire, MulticastManager, Config, multicast}

abbrev pub last : Policy → List Policy → Policy
last q [] = q
last q (r ∷ chan) = last r chan

-- the bytes of a message: it is marshalled, signed, and marshalled with its signature
abbrev pub sealed_bytes : (wire : Wire) → GossipMessage → Option wire.Bytes
sealed_bytes wire msg = elim (wire.marshal msg) [
  | none ↦ none
  | some unsigned ↦ elim (wire.sign unsigned) [ none ↦ none | some rs ↦ wire.marshal_signed msg rs ]
]

-- each recipient gets the bytes, or there are none and the call panics
abbrev pub each_gets :
    {Bytes : Type 0} → List String → Option Bytes → Outcome (List (String × Bytes))
each_gets recipients none = panic
each_gets recipients (some bytes) = ok (map (λ r. (r, bytes)) recipients)

-- A multicast that returns an error has changed nothing: the queued policies wait for the next one.
pub multicast_error_keeps_queue :
    (wire : Wire) (perm : ℕ → List ℕ) (c : Option Config) (m : MulticastManager) (e : Error)
    → (multicast wire perm c m).1 ≡ err e
    → (multicast wire perm c m).0 ≡ m
unfolding multicast
multicast_error_keeps_queue wire perm none m e h = refl
multicast_error_keeps_queue wire perm (some c) m e h = ground arith
