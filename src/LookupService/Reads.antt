-- ===== src/LookupService/Reads.antt =====
-- What the reads of the lookup service return while its services answer.
use lohpi.Common.{
  Bool-cases, Option-cases, All, Outcome, ok, String, ◌≡◌, refl, sym, ap, ◌∙◌, inl, inr, Bool, true,
  false, Option, none, some, List, [], ◌∷◌, arith, str_eq, eq_iff,
}
use lohpi.Proto.{Node}
use lohpi.Extern.{or_same, is_some}
use lohpi.LookupService.{
  Row, Services, State, from_selected, db_select_dataset_node, from_bytes, cache_dataset_node,
  from_cache_or, dataset_node, cache_insert_dataset_node, db_dataset_node_exists,
  cache_dataset_node_exists, warm, warmed, exists_in_db, exists_in_cache_or_db, dataset_node_exists,
}
use lohpi.LookupService.Refinement.{
  Call, insert, remove, exists, after, spec, IsReliable, ReadableCall, step, run, rows_of, Backed,
  BackedCache, ReadableNode, Represents, Backed-cache_insert, insert-Represents, remove-Represents,
}

module _ (ext : Services) where
  open ext use {Bytes, table, redis, codec, timestamp_text}

  from_selected_lem :
      (row : Option Row) (node : Option Node)
      → row ≡ rows_of ext node
      → ReadableNode ext node
      → from_selected ext (some row) ≡ ok node
  unfolding from_selected
  from_selected_lem row none e r = rw e
  from_selected_lem row (some n) e r = rw e r

  db_select_lem :
      IsReliable ext
      → (db : table.Db) (f : String → Option Node) (k : String) → str_eq k "" ≡ false
      → table.row db k ≡ rows_of ext (f k)
      → ReadableNode ext (f k)
      → db_select_dataset_node ext db k ≡ ok (f k)
  unfolding db_select_dataset_node
  db_select_lem reliable db f k named rows r = elim (Option-cases (table.select db k)) [
    | inl failed ↦ absurd (reliable.select_answers db k failed)
    | inr (o, e) ↦
        rw (named, e) (from_selected_lem o (f k) (sym (table.select_row db k o e) ∙ rows) r)
  ]

  from_cache_or_lem :
      (m : redis.Mem) (f : String → Option Node) (k : String)
      → Backed ext m f
      → from_cache_or ext (ok (f k)) (cache_dataset_node ext m k) ≡ ok (f k)
  unfolding cache_dataset_node from_bytes
  from_cache_or_lem m f k h = elim (Option-cases (redis.mget m k)) [
    | inl failed ↦ rw (failed, from_bytes)
    | inr (none, e) ↦ rw (e, from_bytes)
    | inr (some b, e) ↦ ground (arith, e, h k b (redis.mget_entry m k (some b) e))
  ]

  pub dataset_node_lem :
      IsReliable ext
      → (cache : Option redis.Mem) (db : table.Db) (f : String → Option Node) (k : String)
      → str_eq k "" ≡ false
      → Represents ext (record { cache = cache; db = db }) f
      → dataset_node ext (record { cache = cache; db = db }) k ≡ ok (f k)
  unfolding dataset_node
  dataset_node_lem reliable none db f k named h =
      db_select_lem reliable db f k named (h.rows k) (h.readable k)
  dataset_node_lem reliable (some m) db f k named h =
      rw (db_select_lem reliable db f k named (h.rows k) (h.readable k))
        (from_cache_or_lem m f k h.cached)

  db_exists_lem :
      IsReliable ext
      → (db : table.Db) (f : String → Option Node) (k : String) → str_eq k "" ≡ false
      → table.row db k ≡ rows_of ext (f k)
      → db_dataset_node_exists ext db k ≡ ok (is_some (f k))
  unfolding db_dataset_node_exists
  db_exists_lem reliable db f k named rows = elim (Option-cases (table.exists db k)) [
    | inl failed ↦ absurd (reliable.exists_answers db k failed)
    | inr (b, e) ↦ ground (arith, e, table.exists_row db k b e)
  ]

  after-same :
      (f : String → Option Node) (k j : String) (n : Node)
      → f k ≡ some n
      → after (insert k n) f j ≡ f j
  after-same f k j n e = elim (Bool-cases (str_eq k j)) [
    | inl same ↦ rw same (sym e ∙ ap f ((eq_iff k j).0 same))
    | inr other ↦ rw other
  ]

  Backed-warm :
      IsReliable ext
      → (m : redis.Mem) (f : String → Option Node) (k : String) (o : Option Node) → f k ≡ o
      → Backed ext m f
      → Backed ext (or_same m (cache_insert_dataset_node ext m k o)) f
  unfolding cache_insert_dataset_node
  Backed-warm reliable m f k none e h = h
  Backed-warm reliable m f k (some n) e h = λ j b stored.
      rw (after-same f k j n e) at (Backed-cache_insert ext reliable m f k n h j b stored)

  cache_hit :
      (m : redis.Mem) (f : String → Option Node) (k : String)
      → Backed ext m f
      → cache_dataset_node_exists ext m k ≡ true
      → is_some (f k) ≡ true
  unfolding cache_dataset_node_exists
  cache_hit m f k h hit = elim (Option-cases (redis.exists m k)) [
    | inl failed ↦ ground arith
    | inr (r, e) ↦ elim (Option-cases (redis.entry m k)) [
      | inl missing ↦ ground (arith, redis.exists_entry m k r e)
      | inr (b, stored) ↦ (h k b stored).1
    ]
  ]

  -- the answer, and the state that it leaves
  pub Answers : State ext × Outcome Bool → table.Db → (String → Option Node) → Bool → Type 0
  Answers (s, o) db f b = (s.db ≡ db) × BackedCache ext s.cache f × (o ≡ ok b)

  exists_in_db-Answers :
      IsReliable ext
      → (m : redis.Mem) (db : table.Db) (f : String → Option Node) (k : String)
      → str_eq k "" ≡ false
      → Represents ext (record { cache = some m; db = db }) f
      → (b : Bool) → b ≡ is_some (f k)
      → Answers (exists_in_db ext m k db (ok b)) db f b
  unfolding exists_in_db Answers
  exists_in_db-Answers reliable m db f k named h false e = (refl, h.cached, refl)
  exists_in_db-Answers reliable m db f k named h true e =
      rw (db_select_lem reliable db f k named (h.rows k) (h.readable k))
        (unfold warmed warm in (refl, Backed-warm reliable m f k (f k) refl h.cached, refl))

  exists-Answers :
      IsReliable ext
      → (cache : Option redis.Mem) (db : table.Db) (f : String → Option Node) (k : String)
      → str_eq k "" ≡ false
      → Represents ext (record { cache = cache; db = db }) f
      → Answers (dataset_node_exists ext k (record { cache = cache; db = db })) db f (is_some (f k))
  unfolding dataset_node_exists
  exists-Answers reliable none db f k named h =
      rw (named, db_exists_lem reliable db f k named (h.rows k))
        (unfold Answers in (refl, tt, refl))
  exists-Answers reliable (some m) db f k named h =
      rw named (elim (Bool-cases (cache_dataset_node_exists ext m k)) [
        | inl hit ↦ rw hit (
            unfold exists_in_cache_or_db Answers in
            (refl, h.cached, sym (ap ok (cache_hit m f k h.cached hit))))
        | inr miss ↦ rw miss (
            unfold exists_in_cache_or_db in
            rw (db_exists_lem reliable db f k named (h.rows k))
              (exists_in_db-Answers reliable m db f k named h (is_some (f k)) refl))
      ])

  exists-Represents :
      IsReliable ext
      → (s : State ext) (f : String → Option Node) (k : String) → Represents ext s f
      → Represents ext (dataset_node_exists ext k s).0 f
  unfolding dataset_node_exists Answers
  exists-Represents reliable s f k h = elim (Bool-cases (str_eq k "")) [
    | inl empty ↦ rw empty h
    | inr named ↦
        let (same, backed, _) = exists-Answers reliable s.cache s.db f k named h in
        record {
          rows = λ j. ap (λ db. table.row db j) same ∙ h.rows j;
          cached = backed;
          readable = h.readable;
        }
  ]

  step-Represents :
      IsReliable ext
      → (c : Call) (s : State ext) (f : String → Option Node) → ReadableCall ext c
      → Represents ext s f
      → Represents ext (step ext c s) (after c f)
  step-Represents reliable (insert k n) s f r h =
      insert-Represents ext reliable s.cache s.db f k n r h
  step-Represents reliable (remove k) s f r h = remove-Represents ext reliable s.cache s.db f k h
  step-Represents reliable (exists k) s f r h = exists-Represents reliable s f k h

  run-Represents :
      IsReliable ext
      → (calls : List Call) (s : State ext) (f : String → Option Node)
      → All (ReadableCall ext) calls
      → Represents ext s f
      → Represents ext (run ext calls s) (spec calls f)
  run-Represents reliable [] s f r h = h
  run-Represents reliable (c ∷ calls) s f r h =
      run-Represents reliable calls (step ext c s) (after c f) r.1
        (step-Represents reliable c s f r.0 h)

  -- The lookup service refines a map from dataset identifiers to nodes, with or without its cache.
  -- While the services answer and the inserted nodes can be read back from their rows, any calls
  -- of `InsertDatasetNode`, `RemoveDatasetNode` and `DatasetNodeExists`, made from a state that
  -- stands for a map, leave a state in which `DatasetNode` returns, for every identifier that is
  -- not empty, the node of the map that the calls describe, and `DatasetNodeExists` says whether
  -- there is one.
  pub service_refines_map :
      IsReliable ext
      → (calls : List Call) (s : State ext) (f : String → Option Node) (k : String)
      → All (ReadableCall ext) calls
      → Represents ext s f
      → str_eq k "" ≡ false
      → (dataset_node ext (run ext calls s) k ≡ ok (spec calls f k))
        × ((dataset_node_exists ext k (run ext calls s)).1 ≡ ok (is_some (spec calls f k)))
  unfolding Answers
  service_refines_map reliable calls s f k r h named =
      let t = run ext calls s in
      let inv = run-Represents reliable calls s f r h in
      (
        dataset_node_lem reliable t.cache t.db (spec calls f) k named inv,
        (exists-Answers reliable t.cache t.db (spec calls f) k named inv).2,
      )
