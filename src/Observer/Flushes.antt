-- ===== src/Observer/Flushes.antt =====
-- When the observer writes a batch.
use lohpi.Common.{
  ◌==◌, if◌then◌else◌, ==_iff, Bool-cases, Option-cases, nil_argument, ok, err, ℕ, ◌+◌, ◌≤◌, ◌<◌,
  ◌≡◌, refl, ap, ◌∙◌, ◌≢◌, inl, inr, Option, none, some, List, [], ◌∷◌, arith,
}
use lohpi.Observer.{MessageId, Fifo, LogDirectory, GossipObserver, logged, add_gossip, add_gossips}

module _ (fifo : Fifo) (log : LogDirectory) where
  -- the log takes every batch
  abbrev pub LogAnswers : Type 0
  LogAnswers = (batch : List MessageId) (dir : log.Dir) → log.append_file batch dir ≢ none

  logged-cursor :
      LogAnswers
      → (p : GossipObserver fifo log) (batch : List MessageId)
      → ((logged fifo log p (log.append_file batch p.dir)).0.cursor ≡ 0)
        × ((logged fifo log p (log.append_file batch p.dir)).0.config ≡ p.config)
  logged-cursor answers p batch = elim (Option-cases (log.append_file batch p.dir)) [
    | inl failed ↦ absurd (answers batch p.dir failed)
    | inr (dir', e) ↦ rw e (refl, refl)
  ]

  -- the cursor after one more message
  abbrev pub next_cursor : ℕ → ℕ → ℕ
  next_cursor capacity c = if c + 1 == capacity then 0 else c + 1

  add_gossip-cursor :
      LogAnswers
      → (m : MessageId) (p : GossipObserver fifo log)
      → ((add_gossip fifo log (some m) p).0.cursor ≡ next_cursor p.config.capacity p.cursor)
        × ((add_gossip fifo log (some m) p).0.config ≡ p.config)
  unfolding add_gossip
  add_gossip-cursor answers m p = elim (Bool-cases (p.cursor + 1 == p.config.capacity)) [
    | inl full ↦ rw full (logged-cursor answers _ _)
    | inr other ↦ rw other (refl, refl)
  ]

  add_gossip-nil :
      (p : GossipObserver fifo log) → add_gossip fifo log none p ≡ (p, err nil_argument)
  unfolding add_gossip
  add_gossip-nil p = refl

  below_next : (capacity c : ℕ) → c < capacity → next_cursor capacity c < capacity
  below_next capacity c below = ground arith

  -- While the log takes every batch, the cursor of an observer that was made with a capacity above
  -- zero stays below the capacity.
  pub cursor_below_capacity :
      LogAnswers
      → (messages : List (Option MessageId)) (p : GossipObserver fifo log)
      → p.cursor < p.config.capacity
      → let p' = add_gossips fifo log messages p in
        (p'.cursor < p'.config.capacity) × (p'.config ≡ p.config)
  cursor_below_capacity answers [] p below = (below, refl)
  cursor_below_capacity answers (none ∷ messages) p below =
      rw (add_gossips, add_gossip-nil p) (cursor_below_capacity answers messages p below)
  cursor_below_capacity answers (some m ∷ messages) p below =
      let (moved, same) = add_gossip-cursor answers m p in
      let (still, config) =
        cursor_below_capacity answers messages (add_gossip fifo log (some m) p).0
          (rw (moved, same) (below_next p.config.capacity p.cursor below)) in
      (still, config ∙ same)

  add_gossip-past :
      (m : MessageId) (p : GossipObserver fifo log)
      → p.config.capacity ≤ p.cursor
      → add_gossip fifo log (some m) p ≡ (
        record p { observed_gossips = fifo.insert m p.observed_gossips; cursor = p.cursor + 1 },
        ok tt,
      )
  unfolding add_gossip
  add_gossip-past m p passed = elim (Bool-cases (p.cursor + 1 == p.config.capacity)) [
    | inl full ↦ absurd (omega (arith, passed, (==_iff (p.cursor + 1) p.config.capacity).0 full))
    | inr other ↦ rw other refl
  ]

  -- An observer whose cursor has reached the capacity never writes a batch again: whatever is
  -- added, the log directory stays as it is.
  pub passed_capacity_never_flushes :
      (messages : List (Option MessageId)) (p : GossipObserver fifo log)
      → p.config.capacity ≤ p.cursor
      → (add_gossips fifo log messages p).dir ≡ p.dir
  passed_capacity_never_flushes [] p passed = refl
  passed_capacity_never_flushes (none ∷ messages) p passed =
      ap (λ x. (add_gossips fifo log messages x.0).dir) (add_gossip-nil p)
      ∙ passed_capacity_never_flushes messages p passed
  passed_capacity_never_flushes (some m ∷ messages) p passed =
      ap (λ x. (add_gossips fifo log messages x.0).dir) (add_gossip-past m p passed)
      ∙ passed_capacity_never_flushes messages _ (omega (arith, passed))
