-- ===== src/Multicast/Probe/Session/Laws.antt =====
-- What a probing session collects and what it returns.
use mathlib.Core.Path.{subst}
use lohpi.Common.{
  ◌==◌, if◌then◌else◌, Bool-cases, All, ok, ℕ, zero, suc, ◌+◌, ◌<◌, String, ◌≡◌, refl, inl, inr,
  Bool, true, false, Option, none, some, List, [], ◌∷◌, arith, str_eq,
}
use lohpi.Proto.{Probe}
use lohpi.Multicast.Members.{MessageMode, lru_members, random_members, other_mode}
use lohpi.Multicast.Probe.{
  Levels, AckRound, put_ack, same_bytes, Ack, is_valid_acknowledgment, probe_value, Signal,
  ack_timer, stop_ack, RoundEvents,
}
use lohpi.Multicast.Probe.Session.{
  SessionConfig, MulticastConfig, ProbeManager, Verdict, finished, waiting, register_acks, in_time,
  start_round, next_parameters, finish_or_go, end_wait, on_acked, wait_for_acks, probe_loop,
  clear_flag, probe_network,
}

-- the acknowledgments that a round keeps of those that arrive while it is current
unfoldable pub absorb : List ℕ → ℕ → List Ack → List (String × Probe) → List (String × Probe)
unfolding is_valid_acknowledgment put_ack
absorb session order [] table = table
absorb session order ((sender, probe) ∷ acks) table = absorb session order acks (
    if is_valid_acknowledgment probe session order
    then put_ack sender (probe_value probe) table
    else table)

-- an entry of an acknowledgment table fits the session and the round
abbrev pub Fits : List ℕ → ℕ → String × Probe → Type 0
Fits session order (sender, probe) = (probe.order ≡ order) × (probe.session_id ≡ session)

same_bytes-eq : (as_ bs : List ℕ) → same_bytes as_ bs ≡ true → as_ ≡ bs
unfolding same_bytes
same_bytes-eq [] [] h = refl
same_bytes-eq [] (b ∷ bs) h = cc
same_bytes-eq (a ∷ as_) [] h = cc
same_bytes-eq (a ∷ as_) (b ∷ bs) h = ground (arith, same_bytes-eq as_ bs)

is_valid-Fits :
    (sender : String) (probe : Option Probe) (session : List ℕ) (order : ℕ)
    → is_valid_acknowledgment probe session order ≡ true
    → Fits session order (sender, probe_value probe)
unfolding is_valid_acknowledgment
is_valid-Fits sender none session order h = ground (arith, same_bytes-eq [] session)
is_valid-Fits sender (some p) session order h = ground (arith, same_bytes-eq p.session_id session)

put_ack-All :
    (P : String × Probe → Type 0) (k : String) (p : Probe) (t : List (String × Probe))
    → ((j : String) → P (j, p))
    → All P t
    → All P (put_ack k p t)
unfolding put_ack
put_ack-All P k p [] h a = (h k, tt)
put_ack-All P k p ((j, v) ∷ t) h a = elim (Bool-cases (str_eq j k)) [
  | inl same ↦ rw same (h j, a.1)
  | inr other ↦ rw other (a.0, put_ack-All P k p t h a.1)
]

absorb-Fits :
    (session : List ℕ) (order : ℕ) (acks : List Ack) (t : List (String × Probe))
    → All (Fits session order) t
    → All (Fits session order) (absorb session order acks t)
unfolding absorb
absorb-Fits session order [] t h = h
absorb-Fits session order ((sender, probe) ∷ acks) t h =
    absorb-Fits session order acks _
      (elim (Bool-cases (is_valid_acknowledgment probe session order)) [
        | inl valid ↦ rw valid (
            put_ack-All (Fits session order) sender (probe_value probe) t
              (λ j. is_valid-Fits j probe session order valid) h)
        | inr stale ↦ rw stale h
      ])

-- While a session runs, the acknowledgments that arrive change the table of the current round and
-- nothing else.
register_acks_lem :
    {Level : Type 0} (acks : List Ack) (c : SessionConfig Level) (r : AckRound)
    (older : List AckRound)
    → register_acks acks (record { is_probing = true; prb_config = c; rounds = r ∷ older })
      ≡ ok (record {
        is_probing = true;
        prb_config = c;
        rounds = record r { acktable = absorb c.session_id r.order acks r.acktable } ∷ older;
      })
unfolding register_acks absorb
register_acks_lem [] c r older = refl
register_acks_lem ((sender, probe) ∷ acks) c r older =
    elim (Bool-cases (is_valid_acknowledgment probe c.session_id r.order)) [
      | inl valid ↦ rw (valid) (
          register_acks_lem acks c
            (record r { acktable = put_ack sender (probe_value probe) r.acktable }) older)
      | inr stale ↦ rw stale (register_acks_lem acks c r older)
    ]

module _ (levels : Levels) where
  open levels use {Level, zero_level, n_acceptance, half_ceil}

  -- the newest rounds: each has enough acknowledgments, all of the round and of the session
  abbrev pub Consistent : SessionConfig Level → ℕ → List AckRound → Type 0
  Consistent c zero rounds = Unit
  Consistent c (suc n) [] = ⊥
  Consistent c (suc n) (r ∷ rounds) =
      (in_time levels c r ≡ true)
      × All (Fits c.session_id r.order) r.acktable
      × Consistent c n rounds

  abbrev pub Returned : MulticastConfig Level → List AckRound → Type 0
  Returned result [] = ⊥
  Returned result (r ∷ rounds) = result ≡ record {
    multicast_direct_recipients = r.multicast_direct_recipients;
    multicast_interval = r.multicast_interval;
    acceptance_level = zero_level;
  }

  abbrev Good : SessionConfig Level → ProbeManager Level × Verdict Level → Type 0
  Good c (p, finished result) = Consistent c 3 p.rounds × Returned result p.rounds
  Good c (p, _) = Unit

  -- the rest of the loop, from any parameters, ends well
  abbrev GoesOn :
      SessionConfig Level
      → (ℕ → ℕ × ℕ → ProbeManager Level → ProbeManager Level × Verdict Level)
      → Type 0
  GoesOn c go =
      (n : ℕ) (s : ℕ × ℕ) (rounds : List AckRound)
      → n < 3
      → Consistent c n rounds
      → Good c (go n s (record { is_probing = true; prb_config = c; rounds = rounds }))

  finish_or_go-Good :
      (go : ℕ → ℕ × ℕ → ProbeManager Level → ProbeManager Level × Verdict Level)
      (c : SessionConfig Level) (n : ℕ) (s : ℕ × ℕ) (r : AckRound) (rounds : List AckRound)
      → GoesOn c go
      → n < 4
      → Consistent c n (r ∷ rounds)
      → Good c (
          finish_or_go levels go
            (n, s)
            (record { is_probing = true; prb_config = c; rounds = r ∷ rounds }))
  unfolding finish_or_go
  finish_or_go-Good go c zero s r rounds g b h = g 0 s (r ∷ rounds) (omega arith) h
  finish_or_go-Good go c (suc zero) s r rounds g b h = g 1 s (r ∷ rounds) (omega arith) h
  finish_or_go-Good go c (suc (suc zero)) s r rounds g b h = g 2 s (r ∷ rounds) (omega arith) h
  finish_or_go-Good go c (suc (suc (suc zero))) s r rounds g b h = (h, refl)
  finish_or_go-Good go c (suc (suc (suc (suc n)))) s r rounds g b h = absurd (omega arith)

  end_wait-Good :
      (go : ℕ → ℕ × ℕ → ProbeManager Level → ProbeManager Level × Verdict Level) (signal : Signal)
      (c : SessionConfig Level) (n : ℕ) (s : ℕ × ℕ) (r : AckRound) (rounds : List AckRound)
      → GoesOn c go
      → n < 3
      → All (Fits c.session_id r.order) r.acktable
      → Consistent c n rounds
      → Good c (
          end_wait levels go signal n s
            (record { is_probing = true; prb_config = c; rounds = r ∷ rounds }))
  unfolding end_wait next_parameters
  end_wait-Good go stop_ack c n s r rounds g b a h = tt
  end_wait-Good go ack_timer c n s r rounds g b a h = elim (Bool-cases (in_time levels c r)) [
    | inl enough ↦
        rw enough (finish_or_go-Good go c (suc n) s r rounds g (omega arith) (enough, a, h))
    | inr few ↦ rw few (finish_or_go-Good go c 0 _ r rounds g (omega arith) tt)
  ]

  wait_for_acks-Good :
      (go : ℕ → ℕ × ℕ → ProbeManager Level → ProbeManager Level × Verdict Level) (ev : RoundEvents)
      (c : SessionConfig Level) (n : ℕ) (s : ℕ × ℕ) (r : AckRound) (rounds : List AckRound)
      → GoesOn c go
      → n < 3
      → r.acktable ≡ []
      → Consistent c n rounds
      → Good c (
          wait_for_acks levels go ev n s
            (record { is_probing = true; prb_config = c; rounds = r ∷ rounds }, ok tt))
  unfolding wait_for_acks on_acked
  wait_for_acks-Good go ev c n s r rounds g b e h = rw (register_acks_lem ev.acks c r rounds) (
      end_wait-Good go ev.signal c n s _ rounds g b
        (absorb-Fits c.session_id r.order ev.acks r.acktable (rw e tt)) h)

  probe_loop-Good :
      (evs : List (Bool × RoundEvents)) (mode : MessageMode) (order n : ℕ) (s : ℕ × ℕ)
      (c : SessionConfig Level) (rounds : List AckRound)
      → n < 3
      → Consistent c n rounds
      → Good c (
          probe_loop levels evs mode order n s
            (record { is_probing = true; prb_config = c; rounds = rounds }))
  unfolding probe_loop start_round wait_for_acks
  probe_loop-Good [] mode order n s c rounds b h = tt
  probe_loop-Good (e ∷ evs) random_members order n s c rounds b h = tt
  probe_loop-Good (e ∷ evs) other_mode order n s c rounds b h = tt
  probe_loop-Good ((sealed, ev) ∷ evs) lru_members order n (tau, sigma) c rounds b h =
      elim (Bool-cases (c.num_members == 0)) [
        | inl alone ↦ rw alone tt
        | inr peers ↦ rw peers (elim (Bool-cases sealed) [
          | inl signed ↦ rw signed (
              wait_for_acks-Good (probe_loop levels evs lru_members (order + 1)) ev c n (tau, sigma)
                _ rounds
                (λ n' s' rounds'. probe_loop-Good evs lru_members (order + 1) n' s' c rounds') b
                refl h)
          | inr broken ↦ rw broken tt
        ])
      ]

  abbrev Ends : SessionConfig Level → ProbeManager Level × Verdict Level → Type 0
  Ends c (p, finished result) =
      Consistent c 3 p.rounds × Returned result p.rounds × (p.is_probing ≡ false)
  Ends c (p, _) = Unit

  clear_flag-Ends :
      (c : SessionConfig Level) (s : ProbeManager Level × Verdict Level)
      → Good c s
      → Ends c (clear_flag levels s)
  unfolding clear_flag
  clear_flag-Ends c (p, finished r) (g, e) = (g, e, refl)
  clear_flag-Ends c (p, waiting) g = tt
  clear_flag-Ends c (p, _) g = tt

  -- A session that ends with a new configuration has just had three rounds in a row with enough
  -- acknowledgments, each of the session and of its round. The configuration has sigma and tau of
  -- the last round, and the zero acceptance level.
  pub probe_network-Consistent :
      (evs : List (Bool × RoundEvents)) (mode : MessageMode) (session : List ℕ) (others : ℕ)
      (c result : MulticastConfig Level) (p p' : ProbeManager Level)
      → probe_network levels evs mode session others c p ≡ (p', finished result)
      → Consistent
          (record {
            acceptance_level = c.acceptance_level;
            session_id = session;
            num_members = others;
          })
          3
          p'.rounds
        × Returned result p'.rounds
        × (p'.is_probing ≡ false)
  unfolding probe_network
  probe_network-Consistent evs mode session others c result p p' h = subst (Ends _) h (
      clear_flag-Ends _ _ (
        probe_loop-Good evs mode 1 0 (c.multicast_interval, c.multicast_direct_recipients) _
          p.rounds (omega arith) tt))
