-- ===== src/Node/Batch/Fold.antt =====
-- Policy batches at a node without a cache whose table answers: a batch leaves the newest policy.
use lohpi.Common.{
  Outcome, ok, err, panic, ok-calm, String, ◌≡◌, refl, ap, ◌∙◌, ◌≢◌, false, Option, none, some,
  List, [], ◌∷◌, str_eq,
}
use lohpi.Proto.{Policy}
use lohpi.Extern.{map_some}
use lohpi.Indexer.{Services, State}
use lohpi.Indexer.Uncached.{IsReliable, uncached}
use lohpi.Node.Batch.{go_on, apply_all, process_policy_batch}
use lohpi.Node.Batch.Held.{Held, newer, newest, held_at, AllReadable, Dated, not_applied, Gives}
use lohpi.Node.Batch.Step.{apply_policy-Gives}

module _ (ext : Services) where
  open ext use {table, timestamp_text}

  map_some-map_some :
      (g f : Held → Held) (o : Option Held) → map_some g (map_some f o) ≡ map_some (λ h. g (f h)) o
  map_some-map_some g f none = refl
  map_some-map_some g f (some h) = refl

  then-Gives :
      (db : table.Db) (f g : String → Held → Held)
      (rest : State ext → State ext × Outcome (Unit {0})) (s : State ext) (x : Outcome (Unit {0}))
      → Gives ext db f (s, x)
      → ((db' : table.Db) → AllReadable ext db' → Gives ext db' g (rest (uncached ext db')))
      → Gives ext db (λ k h. g k (f k h)) (rest s)
  then-Gives db f g rest s x first next =
      let second = next first.db' first.readable in
      rw first.state (record {
        db' = second.db';
        state = second.state;
        no_panic = second.no_panic;
        readable = second.readable;
        policies = λ k named.
            second.policies k named
            ∙ ap (map_some (g k)) (first.policies k named)
            ∙ map_some-map_some (g k) (f k) (held_at ext db k);
      })

  go_on-Gives :
      (db : table.Db) (f g : String → Held → Held)
      (rest : State ext → State ext × Outcome (Unit {0})) (result : State ext × Outcome (Unit {0}))
      → Gives ext db f result
      → ((db' : table.Db) → AllReadable ext db' → Gives ext db' g (rest (uncached ext db')))
      → Gives ext db (λ k h. g k (f k h)) (go_on ext rest result)
  go_on-Gives db f g rest (s, panic) first next = absurd (first.no_panic refl)
  go_on-Gives db f g rest (s, ok _) first next = then-Gives db f g rest s _ first next
  go_on-Gives db f g rest (s, err e) first next = then-Gives db f g rest s _ first next

  apply_all-Gives :
      IsReliable ext
      → (ps : List (Option Policy)) (db : table.Db) → AllReadable ext db
      → Dated ext ps
      → Gives ext db (λ k. newest k ps) (apply_all ext ps (uncached ext db))
  unfolding apply_all
  apply_all-Gives reliable [] db readable dated =
      not_applied ext db none (ok tt) readable (ok-calm tt) (λ k r named row. refl)
  apply_all-Gives reliable (p ∷ ps) db readable (first, rest) =
      go_on-Gives db (λ k. newer k p) (λ k. newest k ps) (apply_all ext ps) _
        (apply_policy-Gives ext reliable db p readable first)
        (λ db' readable'. apply_all-Gives reliable ps db' readable' rest)

  -- At a node without a cache, while the database answers and every date in it and in the batch can
  -- be read back, `processPolicyBatch` does not panic, and for each identifier that is not empty
  -- the table then holds the content and the version of the newest policy: the one it held, or the
  -- first of the batch with the highest version. No dataset appears or goes.
  pub batch_leaves_newest :
      IsReliable ext
      → (p : Option Policy) (ps : List (Option Policy)) (db : table.Db) (k : String)
      → AllReadable ext db
      → Dated ext (p ∷ ps)
      → str_eq k "" ≡ false
      → let result = process_policy_batch ext (some (p ∷ ps)) (uncached ext db) in
        (result.1 ≢ panic)
        × (held_at ext result.0.db k ≡ map_some (newest k (p ∷ ps)) (held_at ext db k))
  unfolding process_policy_batch
  batch_leaves_newest reliable p ps db k readable dated named =
      let g = apply_all-Gives reliable (p ∷ ps) db readable dated in
      (g.no_panic, ap (λ s. held_at ext s.db k) g.state ∙ g.policies k named)
