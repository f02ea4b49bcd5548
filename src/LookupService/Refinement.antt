-- ===== src/LookupService/Refinement.antt =====
-- While its services answer, the lookup service with or without a cache is a map from dataset
-- identifiers to nodes.
use mathlib.Core.Path.{subst}
use lohpi.Common.{
  if◌then◌else◌, Bool-cases, Option-cases, Outcome, ok, String, ◌≡◌, refl, sym, ◌≢◌, inl, inr, true,
  Option, none, some, List, [], ◌∷◌, arith, str_eq, eq_iff,
}
use lohpi.Proto.{Node}
use lohpi.Extern.{or_same, is_some}
use lohpi.LookupService.{
  Row, Services, State, to_row, from_row, cache_insert_dataset_node, db_insert_dataset_node,
  with_db, insert_dataset_node, db_dataset_node_exists, dataset_node_exists,
  cache_remove_dataset_node, after_delete, db_remove_dataset_node, remove_dataset_node,
}

pub data Call : Type 0 where
  insert : String → Node → Call
  remove : String → Call
  exists : String → Call

-- the map that the calls describe; `RemoveDatasetNode("")` is refused
abbrev pub after : Call → (String → Option Node) → String → Option Node
after (insert k n) f j = if str_eq k j then some n else f j
after (remove k) f j = if str_eq k "" then f j else if str_eq k j then none else f j
after (exists k) f j = f j

abbrev pub spec : List Call → (String → Option Node) → String → Option Node
spec [] f = f
spec (c ∷ calls) f = spec calls (after c f)

module _ (ext : Services) where
  open ext use {Bytes, table, redis, codec, timestamp_text}

  -- the database and the cache answer, and nodes can be encoded
  pub record IsReliable : Type 0 where
    pub set_answers : (m : redis.Mem) (k : String) (b : Bytes) → redis.set m k b ≢ none
    pub del_answers : (m : redis.Mem) (k : String) → redis.del m k ≢ none
    pub marshal_answers : (n : Node) → codec.marshal n ≢ none
    pub upsert_answers : (db : table.Db) (k : String) (r : Row) → table.upsert db k r ≢ none
    pub delete_answers : (db : table.Db) (k : String) → table.delete db k ≢ none
    pub select_answers : (db : table.Db) (k : String) → table.select db k ≢ none
    pub exists_answers : (db : table.Db) (k : String) → table.exists db k ≢ none

  -- what the database holds of a node can be read back
  abbrev pub Readable : Node → Type 0
  Readable n = from_row ext (to_row ext n) ≡ ok (some n)

  abbrev pub ReadableCall : Call → Type 0
  ReadableCall (insert k n) = Readable n
  ReadableCall _ = Unit

  abbrev pub step : Call → State ext → State ext
  step (insert k n) s = (insert_dataset_node ext k (some n) s).0
  step (remove k) s = (remove_dataset_node ext k s).0
  step (exists k) s = (dataset_node_exists ext k s).0

  abbrev pub run : List Call → State ext → State ext
  run [] s = s
  run (c ∷ calls) s = run calls (step c s)

  abbrev pub rows_of : Option Node → Option Row
  rows_of none = none
  rows_of (some n) = some (to_row ext n)

  -- a cached value is the encoding of the node that the map has
  abbrev pub Backed : redis.Mem → (String → Option Node) → Type 0
  Backed m f =
      (j : String) (b : Bytes)
      → redis.entry m j ≡ some b
      → (codec.unmarshal b ≡ f j) × (is_some (f j) ≡ true)

  abbrev pub BackedCache : Option redis.Mem → (String → Option Node) → Type 0
  BackedCache none f = Unit
  BackedCache (some m) f = Backed m f

  abbrev pub ReadableNode : Option Node → Type 0
  ReadableNode none = Unit
  ReadableNode (some n) = Readable n

  -- the state stands for the map `f`
  pub record Represents (s : State ext) (f : String → Option Node) : Type 0 where
    pub rows : (j : String) → table.row s.db j ≡ rows_of (f j)
    pub cached : BackedCache s.cache f
    pub readable : (j : String) → ReadableNode (f j)

  Backed-set :
      (m m' : redis.Mem) (f : String → Option Node) (k : String) (n : Node) (b : Bytes)
      → redis.set m k b ≡ some m'
      → codec.marshal n ≡ some b
      → Backed m f
      → Backed m' (after (insert k n) f)
  Backed-set m m' f k n b set marshalled h j b' e = elim (Bool-cases (str_eq k j)) [
    | inl same ↦
        ground (arith, redis.set_entry m k b m' j set, codec.unmarshal-marshal n b marshalled, same)
    | inr other ↦ ground (arith, redis.set_entry m k b m' j set, h j b', other)
  ]

  pub Backed-cache_insert :
      IsReliable
      → (m : redis.Mem) (f : String → Option Node) (k : String) (n : Node) → Backed m f
      → Backed (or_same m (cache_insert_dataset_node ext m k (some n))) (after (insert k n) f)
  unfolding cache_insert_dataset_node
  Backed-cache_insert reliable m f k n h = elim (Option-cases (codec.marshal n)) [
    | inl failed ↦ absurd (reliable.marshal_answers n failed)
    | inr (b, marshalled) ↦ rw marshalled (elim (Option-cases (redis.set m k b)) [
      | inl failed ↦ absurd (reliable.set_answers m k b failed)
      | inr (m', set) ↦ rw set (Backed-set m m' f k n b set marshalled h)
    ])
  ]

  rows-upsert :
      (db db' : table.Db) (f : String → Option Node) (k : String) (n : Node)
      → table.upsert db k (to_row ext n) ≡ some db'
      → ((j : String) → table.row db j ≡ rows_of (f j))
      → (j : String) → table.row db' j ≡ rows_of (after (insert k n) f j)
  rows-upsert db db' f k n e h j = ground (arith, table.upsert_row db k (to_row ext n) db' j e, h j)

  Readable-insert :
      (f : String → Option Node) (k : String) (n : Node)
      → Readable n
      → ((j : String) → ReadableNode (f j))
      → (j : String) → ReadableNode (after (insert k n) f j)
  Readable-insert f k n r h j = elim (Bool-cases (str_eq k j)) [
    | inl same ↦ rw same r
    | inr other ↦ rw other (h j)
  ]

  -- the cache after an insertion
  abbrev inserted : Option redis.Mem → String → Node → Option redis.Mem
  inserted none k n = none
  inserted (some m) k n = some (or_same m (cache_insert_dataset_node ext m k (some n)))

  insert_lem :
      (cache : Option redis.Mem) (db db' : table.Db) (k : String) (n : Node)
      → table.upsert db k (to_row ext n) ≡ some db'
      → step (insert k n) (record { cache = cache; db = db })
        ≡ record { cache = inserted cache k n; db = db' }
  unfolding insert_dataset_node db_insert_dataset_node
  insert_lem none db db' k n e = ground arith
  insert_lem (some m) db db' k n e = ground arith

  inserted-Backed :
      IsReliable
      → (cache : Option redis.Mem) (f : String → Option Node) (k : String) (n : Node)
      → BackedCache cache f
      → BackedCache (inserted cache k n) (after (insert k n) f)
  inserted-Backed reliable none f k n h = tt
  inserted-Backed reliable (some m) f k n h = Backed-cache_insert reliable m f k n h

  pub insert-Represents :
      IsReliable
      → (cache : Option redis.Mem) (db : table.Db) (f : String → Option Node) (k : String)
        (n : Node)
      → Readable n
      → Represents (record { cache = cache; db = db }) f
      → Represents (step (insert k n) (record { cache = cache; db = db })) (after (insert k n) f)
  insert-Represents reliable cache db f k n r h =
      elim (Option-cases (table.upsert db k (to_row ext n))) [
        | inl failed ↦ absurd (reliable.upsert_answers db k (to_row ext n) failed)
        | inr (db', e) ↦
            subst (λ s. Represents s (after (insert k n) f)) (sym (insert_lem cache db db' k n e))
              (record {
                rows = rows-upsert db db' f k n e h.rows;
                cached = inserted-Backed reliable cache f k n h.cached;
                readable = Readable-insert f k n r h.readable;
              })
      ]

  abbrev removed : Option redis.Mem → String → Option redis.Mem
  removed none k = none
  removed (some m) k = some (cache_remove_dataset_node ext m k)

  removed-Backed :
      IsReliable
      → (cache : Option redis.Mem) (f : String → Option Node) (k : String) → BackedCache cache f
      → BackedCache (removed cache k) (after (remove k) f)
  unfolding cache_remove_dataset_node
  removed-Backed reliable none f k h = tt
  removed-Backed reliable (some m) f k h = elim (Option-cases (redis.del m k)) [
    | inl failed ↦ absurd (reliable.del_answers m k failed)
    | inr ((n, m'), e) ↦ λ j b stored. ground (arith, redis.del_entry m k n m' j e, h j b)
  ]

  -- the database after a call that may have failed
  abbrev settled : table.Db → Outcome table.Db → table.Db
  settled db (ok db') = db'
  settled db _ = db

  with_db_lem :
      (s : State ext) (o : Outcome table.Db)
      → (with_db ext s o).0 ≡ record s { db = settled s.db o }
  with_db_lem s (ok db') = refl
  with_db_lem s _ = refl

  -- `dbRemoveDatasetNode` deletes the row that is there, and refuses the rest
  rows-remove :
      IsReliable
      → (db : table.Db) (k : String) (f : String → Option Node)
      → ((j : String) → table.row db j ≡ rows_of (f j))
      → (j : String)
      → table.row (settled db (db_remove_dataset_node ext db k)) j ≡ rows_of (after (remove k) f j)
  unfolding db_remove_dataset_node db_dataset_node_exists after_delete
  rows-remove reliable db k f h j = elim (Option-cases (table.exists db k)) [
    | inl failed ↦ absurd (reliable.exists_answers db k failed)
    | inr (b, there) ↦ elim (Option-cases (table.delete db k)) [
      | inl failed ↦ absurd (reliable.delete_answers db k failed)
      | inr ((n, db'), e) ↦ ground (
        arith,
        h j,
        h k,
        table.exists_row db k b there,
        table.delete_row db k n db' j e,
        table.delete_count db k n db' e,
        eq_iff k j,
      )
    ]
  ]

  remove_lem :
      (cache : Option redis.Mem) (db : table.Db) (k : String)
      → step (remove k) (record { cache = cache; db = db })
        ≡ record { cache = removed cache k; db = settled db (db_remove_dataset_node ext db k) }
  unfolding remove_dataset_node
  remove_lem none db k = with_db_lem _ _
  remove_lem (some m) db k = with_db_lem _ _

  readable-remove :
      (f : String → Option Node) (k : String)
      → ((j : String) → ReadableNode (f j))
      → (j : String) → ReadableNode (after (remove k) f j)
  readable-remove f k h j = elim (Bool-cases (str_eq k "")) [
    | inl refused ↦ rw refused (h j)
    | inr named ↦
        rw named
          (elim (Bool-cases (str_eq k j)) [ inl same ↦ rw same tt | inr other ↦ rw other (h j) ])
  ]

  pub remove-Represents :
      IsReliable
      → (cache : Option redis.Mem) (db : table.Db) (f : String → Option Node) (k : String)
      → Represents (record { cache = cache; db = db }) f
      → Represents (step (remove k) (record { cache = cache; db = db })) (after (remove k) f)
  remove-Represents reliable cache db f k h =
      subst (λ s. Represents s (after (remove k) f)) (sym (remove_lem cache db k))
        (record {
          rows = rows-remove reliable db k f h.rows;
          cached = removed-Backed reliable cache f k h.cached;
          readable = readable-remove f k h.readable;
        })
