-- ===== src/Observer.antt =====
-- `GossipObserverUnit` of core/gossipobserver/observer.go: the observed gossip messages are kept in
-- a queue, whose elements are written to a log file each time that as many were added as the
-- capacity says. The queue (github.com/tomcat-bit/fifoqueue) and the log directory are parameters.
pub mod Flushes
mod Tests
use lohpi.Common.{
  ◌==◌, if◌then◌else◌, nil_argument, file_error, range_error, Outcome, ok, err, ◌>>=◌, or_err, ℕ,
  ◌+◌, Option, none, some, List, [], ◌∷◌,
}

-- GossipMessageID, as far as the observer looks at it
abbrev pub MessageId : Type 0
MessageId = List ℕ

-- the queue: the oldest element leaves when it is full
pub record Fifo : Type 1 where
  pub Queue : Type 0
  pub new_queue : ℕ → Option Queue
  pub insert : MessageId → Queue → Queue
  pub elements : Queue → List MessageId

-- the log directory: a batch is written to a file of its own; `none` is an error of the file
-- system or of the encoder
pub record LogDirectory : Type 1 where
  pub Dir : Type 0
  pub make_directory : Dir → Option Dir
  pub append_file : List MessageId → Dir → Option Dir

pub record ObserverConfig : Type 0 where
  pub capacity : ℕ

module _ (fifo : Fifo) (log : LogDirectory) where
  pub record GossipObserver : Type 0 where
    pub observed_gossips : fifo.Queue
    pub config : ObserverConfig
    pub cursor : ℕ
    pub dir : log.Dir

  -- `NewGossipObserver`: a capacity that the queue refuses is an error
  unfoldable pub new_gossip_observer : Option ObserverConfig → log.Dir → Outcome GossipObserver
  new_gossip_observer none dir = err nil_argument
  new_gossip_observer (some c) dir = or_err range_error (fifo.new_queue c.capacity) >>= λ q.
      or_err file_error (log.make_directory dir) >>= λ dir'.
      ok (record { observed_gossips = q; config = c; cursor = 0; dir = dir' })

  -- the cursor starts again only when the batch was written
  abbrev pub logged : GossipObserver → Option log.Dir → GossipObserver × Outcome (Unit {0})
  logged p none = (p, err file_error)
  logged p (some dir') = (record p { cursor = 0; dir = dir' }, ok tt)

  abbrev pub flush_full : GossipObserver → GossipObserver × Outcome (Unit {0})
  flush_full p =
      if p.cursor == p.config.capacity
      then logged p (log.append_file (fifo.elements p.observed_gossips) p.dir)
      else (p, ok tt)

  -- `AddGossip`: `none` is a nil message
  unfoldable pub add_gossip :
      Option MessageId → GossipObserver → GossipObserver × Outcome (Unit {0})
  add_gossip none p = (p, err nil_argument)
  add_gossip (some msg) p =
      flush_full
        (record p { observed_gossips = fifo.insert msg p.observed_gossips; cursor = p.cursor + 1 })

  -- any calls of `AddGossip`
  abbrev pub add_gossips : List (Option MessageId) → GossipObserver → GossipObserver
  add_gossips [] p = p
  add_gossips (msg ∷ messages) p = add_gossips messages (add_gossip msg p).0
