-- ===== src/Multicast/Probe/Session.antt =====
-- `probeNetwork` and `probeAcknowledger` of core/policystore/multicast/probe.go. A session is fed
-- with what reaches the prober in each round: the acknowledgments, which the acknowledger handles
-- one by one, and then the event that ends the wait. Marshalling and signing of the probe messages
-- (protobuf, Ifrit) may fail; `sealed` says whether they do in a round.
pub mod Laws
use lohpi.Common.{
  ltb, leb, ◌==◌, if◌then◌else◌, length, Error, codec_error, no_recipients, Outcome, ok, err, panic,
  ◌>>=◌, ℕ, suc, ◌+◌, ◌%◌, ◌^◌, Bool, true, false, ◌&&◌, List, [], ◌∷◌,
}
use lohpi.Proto.{Probe}
use lohpi.Multicast.Members.{MessageMode}
use lohpi.Multicast.Probe.{
  Levels, increase_probe_parameters, probe_round_recipients, AckRound, put_ack, Ack,
  is_valid_acknowledgment, probe_value, Signal, ack_timer, stop_ack, RoundEvents,
}

-- the configuration of a session; `Level` stands for float64
pub record SessionConfig (Level : Type 0) : Type 0 where
  pub acceptance_level : Level
  pub session_id : List ℕ
  pub num_members : ℕ

pub record MulticastConfig (Level : Type 0) : Type 0 where
  pub multicast_direct_recipients : ℕ
  pub multicast_interval : ℕ
  pub acceptance_level : Level

-- `rounds` holds the newest round first: `appendRound` and `setCurrentRound` are called together,
-- so the current round is its head
pub record ProbeManager (Level : Type 0) : Type 0 where
  pub is_probing : Bool
  pub prb_config : SessionConfig Level
  pub rounds : List AckRound

pub data Verdict (Level : Type 0) : Type 0 where
  finished : MulticastConfig Level → Verdict Level
  stopped : Verdict Level
  failed : Error → Verdict Level
  crashed : Verdict Level
  -- the events are used up before the session ended
  waiting : Verdict Level

module _ {Level : Type 0} where
  -- one message that the acknowledger takes from `probeChan`: it is dropped unless a session is
  -- running and it fits the current round; with no round at all the nil pointer is read
  unfoldable pub register_ack : Ack → ProbeManager Level → Outcome (ProbeManager Level)
  unfolding put_ack is_valid_acknowledgment
  register_ack (sender, probe) p = elim p.rounds [
    | [] ↦ if p.is_probing then panic else ok p
    | r ∷ older ↦
        if p.is_probing && is_valid_acknowledgment probe p.prb_config.session_id r.order
        then ok (record p {
          rounds = record r { acktable = put_ack sender (probe_value probe) r.acktable } ∷ older;
        })
        else ok p
  ]

  unfoldable pub register_acks : List Ack → ProbeManager Level → Outcome (ProbeManager Level)
  unfolding register_ack
  register_acks [] p = ok p
  register_acks (a ∷ acks) p = register_ack a p >>= register_acks acks

module _ (levels : Levels) where
  open levels use {Level, zero_level, n_acceptance, half_ceil}

  -- `initializeProbingSession`; `others` is len(ifritClient.Members()) - 1, since the list of Ifrit
  -- has the client itself
  pub initialize_probing_session :
      List ℕ → ℕ → MulticastConfig Level → ProbeManager Level → ProbeManager Level
  initialize_probing_session session others c p = record p {
    prb_config = record {
      acceptance_level = c.acceptance_level;
      session_id = session;
      num_members = others;
    };
  }

  -- `acknowledgmentsArrivedInTime`, on the current round
  pub in_time : SessionConfig Level → AckRound → Bool
  in_time c r = leb (n_acceptance c.num_members c.acceptance_level) (length r.acktable)

  pub acknowledgments_arrived_in_time : ProbeManager Level → Bool
  unfolding in_time
  acknowledgments_arrived_in_time p = elim p.rounds [ [] ↦ false | r ∷ _ ↦ in_time p.prb_config r ]

  -- `newProbeRound`, `appendRound`, `setCurrentRound` and `multicast` of one round
  start_round :
      Bool → MessageMode → ℕ → ℕ → ℕ → ProbeManager Level → ProbeManager Level × Outcome (Unit {0})
  unfolding probe_round_recipients
  start_round sealed mode order tau sigma p = elim (probe_round_recipients mode) [
    | panic ↦ (p, panic)
    | err e ↦ (p, err e)
    | ok recipients ↦ (
      record p {
        rounds =
            record {
              acktable = [];
              multicast_interval = tau;
              multicast_direct_recipients = sigma;
              mode = mode;
              order = order % 2 ^ 32;
              recipients = recipients;
            }
            ∷ p.rounds;
      },
      if p.prb_config.num_members == 0
          then err no_recipients
          else if sealed
          then ok tt
          else err codec_error,
    )
  ]

  -- the configuration that a session returns: tau and sigma of the current round; the acceptance
  -- level is not set
  new_config : ProbeManager Level → Verdict Level
  new_config p = elim p.rounds [
    | [] ↦ crashed
    | r ∷ _ ↦ finished (record {
      multicast_direct_recipients = r.multicast_direct_recipients;
      multicast_interval = r.multicast_interval;
      acceptance_level = zero_level;
    })
  ]

  -- the parameters and the count of successes after a round that ended by the timer
  next_parameters : Bool → SessionConfig Level → ℕ → ℕ × ℕ → ℕ × (ℕ × ℕ)
  unfolding increase_probe_parameters
  next_parameters true c successes s = (suc successes, s)
  next_parameters false c successes s =
      (0, increase_probe_parameters (half_ceil c.acceptance_level c.num_members) c.num_members s)

  -- `if consecutiveSuccesses > 2 { break }`; `go` is the rest of the loop
  finish_or_go :
      (ℕ → ℕ × ℕ → ProbeManager Level → ProbeManager Level × Verdict Level)
      → ℕ × (ℕ × ℕ)
      → ProbeManager Level
      → ProbeManager Level × Verdict Level
  unfolding new_config
  finish_or_go go (successes, s) p = if ltb 2 successes then (p, new_config p) else go successes s p

  -- the `select` that ends the wait for acknowledgments
  end_wait :
      (ℕ → ℕ × ℕ → ProbeManager Level → ProbeManager Level × Verdict Level)
      → Signal
      → ℕ
      → ℕ × ℕ
      → ProbeManager Level
      → ProbeManager Level × Verdict Level
  unfolding acknowledgments_arrived_in_time next_parameters finish_or_go
  end_wait go stop_ack successes s p = (p, stopped)
  end_wait go ack_timer successes s p =
      finish_or_go go (next_parameters (acknowledgments_arrived_in_time p) p.prb_config successes s)
        p

  -- a panic of the acknowledger ends the process
  on_acked :
      (ℕ → ℕ × ℕ → ProbeManager Level → ProbeManager Level × Verdict Level)
      → Signal
      → ℕ
      → ℕ × ℕ
      → ProbeManager Level
      → Outcome (ProbeManager Level)
      → ProbeManager Level × Verdict Level
  unfolding end_wait
  on_acked go signal successes s p panic = (p, crashed)
  on_acked go signal successes s p (err e) = (p, failed e)
  on_acked go signal successes s p (ok acked) = end_wait go signal successes s acked

  -- the rest of a round, once its message is sent
  wait_for_acks :
      (ℕ → ℕ × ℕ → ProbeManager Level → ProbeManager Level × Verdict Level)
      → RoundEvents
      → ℕ
      → ℕ × ℕ
      → ProbeManager Level × Outcome (Unit {0})
      → ProbeManager Level × Verdict Level
  unfolding register_acks on_acked
  wait_for_acks go ev successes s (p, panic) = (p, crashed)
  wait_for_acks go ev successes s (p, err e) = (p, failed e)
  wait_for_acks go ev successes s (p, ok _) =
      on_acked go ev.signal successes s p (register_acks ev.acks p)

  -- the main probing loop: each round has its events, and whether its message could be sealed
  probe_loop :
      List (Bool × RoundEvents)
      → MessageMode
      → ℕ
      → ℕ
      → ℕ × ℕ
      → ProbeManager Level
      → ProbeManager Level × Verdict Level
  unfolding start_round wait_for_acks
  probe_loop [] mode order successes s p = (p, waiting)
  probe_loop ((sealed, ev) ∷ evs) mode order successes (tau, sigma) p =
      wait_for_acks (probe_loop evs mode (order + 1)) ev successes (tau, sigma)
        (start_round sealed mode order tau sigma p)

  -- the deferred function resets the flag on every way out
  clear_flag : ProbeManager Level × Verdict Level → ProbeManager Level × Verdict Level
  clear_flag (p, waiting) = (p, waiting)
  clear_flag (p, v) = (record p { is_probing = false }, v)

  -- `probeNetwork`
  unfoldable pub probe_network :
      List (Bool × RoundEvents)
      → MessageMode
      → List ℕ
      → ℕ
      → MulticastConfig Level
      → ProbeManager Level
      → ProbeManager Level × Verdict Level
  unfolding initialize_probing_session probe_loop clear_flag
  probe_network evs mode session others c p =
      let started = initialize_probing_session session others c (record p { is_probing = true }) in
      clear_flag
        (probe_loop evs mode 1 0 (c.multicast_interval, c.multicast_direct_recipients) started)
