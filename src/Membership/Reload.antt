-- ===== src/Membership/Reload.antt =====
-- Where the map and the table agree, and where they do not.
use mathlib.Core.Path.{subst}
use lohpi.Common.{
  if◌then◌else◌, Bool-cases, Option-cases, ok, ℕ, String, ◌≡◌, refl, sym, ap, ◌∙◌, ◌≢◌, inl, inr,
  Bool, true, false, Option, none, some, List, [], ◌∷◌, arith, str_eq, eq_iff,
}
use lohpi.Extern.{keep_old}
use lohpi.Proto.{Node}
use lohpi.Membership.{
  Row, Services, lookup_node, put_node, delete_node, node_at, network_node, MembershipState, to_row,
  db_add_network_node, with_db, add_network_node, db_remove_network_node, remove_network_node,
}

pub lookup_node-put_node :
    (k j : String) (n : Option Node) (m : List (String × Option Node))
    → lookup_node j (put_node k n m) ≡ (if str_eq k j then some n else lookup_node j m)
unfolding lookup_node put_node
lookup_node-put_node k j n [] = refl
lookup_node-put_node k j n ((i, v) ∷ m) =
    ground (arith, eq_iff k j, eq_iff i k, eq_iff i j, lookup_node-put_node k j n m)

lookup_node-delete_node :
    (k j : String) (m : List (String × Option Node))
    → lookup_node j (delete_node k m) ≡ (if str_eq k j then none else lookup_node j m)
unfolding lookup_node delete_node
lookup_node-delete_node k j [] = ground arith
lookup_node-delete_node k j ((i, v) ∷ m) =
    ground (arith, eq_iff k j, eq_iff i k, eq_iff i j, lookup_node-delete_node k j m)

pub data Call : Type 0 where
  add : String → Node → Call
  remove : String → Call

-- the node that was added last under `k`, and not removed since
abbrev pub last_added : String → List Call → Option Node → Option Node
last_added k [] o = o
last_added k (add j n ∷ calls) o = last_added k calls (if str_eq j k then some n else o)
last_added k (remove j ∷ calls) o = last_added k calls (if str_eq j k then none else o)

-- the node that was added first under `k` since it was removed
abbrev pub first_added : String → List Call → Option Node → Option Node
first_added k [] o = o
first_added k (add j n ∷ calls) o = first_added k calls (if str_eq j k then keep_old n o else o)
first_added k (remove j ∷ calls) o = first_added k calls (if str_eq j k then none else o)

-- the names are not empty
abbrev pub Named : List Call → Type 0
Named [] = Unit
Named (add j n ∷ calls) = (str_eq j "" ≡ false) × Named calls
Named (remove j ∷ calls) = (str_eq j "" ≡ false) × Named calls

abbrev pub stored : Option Node → Option (Option Node)
stored none = none
stored (some n) = some (some n)

stored-if :
    (b : Bool) (x y : Option Node)
    → (if b then stored x else stored y) ≡ stored (if b then x else y)
stored-if true x y = refl
stored-if false x y = refl

pub node_at-stored : (o : Option Node) → node_at (stored o) ≡ o
node_at-stored none = refl
node_at-stored (some n) = refl

module _ (ext : Services) where
  open ext use {table}

  pub record IsReliable : Type 0 where
    pub insert_answers : (db : table.Db) (k : String) (r : Row) → table.insert db k r ≢ none
    pub delete_answers : (db : table.Db) (k : String) → table.delete db k ≢ none

  abbrev pub rows_of : Option Node → Option Row
  rows_of none = none
  rows_of (some n) = some (to_row ext n)

  rows_of-if :
      (b : Bool) (x y : Option Node)
      → (if b then rows_of x else rows_of y) ≡ rows_of (if b then x else y)
  rows_of-if true x y = refl
  rows_of-if false x y = refl

  rows_of-keep_old :
      (n : Node) (o : Option Node) → keep_old (to_row ext n) (rows_of o) ≡ rows_of (keep_old n o)
  rows_of-keep_old n none = refl
  rows_of-keep_old n (some m) = refl

  abbrev pub with_database : List (String × Option Node) → table.Db → MembershipState ext
  with_database m db = record { nodes_map = m; network_node_db = some db }

  abbrev pub step : Call → MembershipState ext → MembershipState ext
  step (add k n) s = (add_network_node ext k (some n) s).0
  step (remove k) s = (remove_network_node ext k s).0

  abbrev pub run : List Call → MembershipState ext → MembershipState ext
  run [] s = s
  run (c ∷ calls) s = run calls (step c s)

  -- the map holds `latest` under `k` and the table holds `earliest`
  abbrev pub Holds : String → Option Node → Option Node → MembershipState ext → Type 0
  Holds k latest earliest s =
      (lookup_node k s.nodes_map ≡ stored latest)
      × ((db : table.Db) × (s.network_node_db ≡ some db) × (table.row db k ≡ rows_of earliest))

  insert_row-rows :
      (db db' : table.Db) (j k : String) (n : Node) (earliest : Option Node)
      → table.insert db j (to_row ext n) ≡ some db'
      → table.row db k ≡ rows_of earliest
      → table.row db' k ≡ rows_of (if str_eq j k then keep_old n earliest else earliest)
  insert_row-rows db db' j k n earliest e row =
      table.insert_row db j (to_row ext n) db' k e ∙ elim (Bool-cases (str_eq j k)) [
        | inl same ↦ rw (same, (eq_iff j k).0 same, row) (rows_of-keep_old n earliest)
        | inr other ↦ rw (other, row) refl
      ]

  db_add_lem :
      (db db' : table.Db) (j : String) (n : Node)
      → str_eq j "" ≡ false
      → table.insert db j (to_row ext n) ≡ some db'
      → db_add_network_node ext db j (some n) ≡ ok db'
  unfolding db_add_network_node
  db_add_lem db db' j n named e = rw (named, e) refl

  db_remove_lem :
      (db db' : table.Db) (j : String) (c : ℕ)
      → str_eq j "" ≡ false
      → table.delete db j ≡ some (c, db')
      → db_remove_network_node ext db j ≡ ok db'
  unfolding db_remove_network_node
  db_remove_lem db db' j c named e = rw (named, e) refl

  add-Holds :
      IsReliable
      → (m : List (String × Option Node)) (db : table.Db) (j k : String) (n : Node)
        (latest earliest : Option Node)
      → str_eq j "" ≡ false
      → lookup_node k m ≡ stored latest
      → table.row db k ≡ rows_of earliest
      → (m' : List (String × Option Node)) × (db' : table.Db) × (step (add j n) (with_database m db)
          ≡ with_database m' db')
        × (lookup_node k m' ≡ stored (if str_eq j k then some n else latest))
        × (table.row db' k ≡ rows_of (if str_eq j k then keep_old n earliest else earliest))
  unfolding add_network_node
  add-Holds reliable m db j k n latest earliest named inside row =
      elim (Option-cases (table.insert db j (to_row ext n))) [
        | inl failed ↦ absurd (reliable.insert_answers db j _ failed)
        | inr (db', e) ↦ (
          put_node j (some n) m,
          db',
          ap (λ o. (with_db ext (with_database (put_node j (some n) m) db) db o).0)
              (db_add_lem db db' j n named e),
          lookup_node-put_node j k (some n) m ∙ rw inside (stored-if (str_eq j k) (some n) latest),
          insert_row-rows db db' j k n earliest e row,
        )
      ]

  remove-Holds :
      IsReliable
      → (m : List (String × Option Node)) (db : table.Db) (j k : String)
        (latest earliest : Option Node)
      → str_eq j "" ≡ false
      → lookup_node k m ≡ stored latest
      → table.row db k ≡ rows_of earliest
      → (m' : List (String × Option Node)) × (db' : table.Db) × (step
            (remove j)
            (with_database m db)
          ≡ with_database m' db')
        × (lookup_node k m' ≡ stored (if str_eq j k then none else latest))
        × (table.row db' k ≡ rows_of (if str_eq j k then none else earliest))
  unfolding remove_network_node
  remove-Holds reliable m db j k latest earliest named inside row =
      elim (Option-cases (table.delete db j)) [
        | inl failed ↦ absurd (reliable.delete_answers db j failed)
        | inr ((c, db'), e) ↦ (
          delete_node j m,
          db',
          ap (λ o. (with_db ext (with_database (delete_node j m) db) db o).0)
              (db_remove_lem db db' j c named e),
          lookup_node-delete_node j k m ∙ rw inside (stored-if (str_eq j k) none latest),
          table.delete_row db j c db' k e ∙ rw row (rows_of-if (str_eq j k) none earliest),
        )
      ]

  run-Holds :
      IsReliable
      → (calls : List Call) (m : List (String × Option Node)) (db : table.Db) (k : String)
        (latest earliest : Option Node)
      → Named calls
      → lookup_node k m ≡ stored latest
      → table.row db k ≡ rows_of earliest
      → Holds k
          (last_added k calls latest)
          (first_added k calls earliest)
          (run calls (with_database m db))
  run-Holds reliable [] m db k latest earliest named inside row = (inside, (db, refl, row))
  run-Holds reliable (add j n ∷ calls) m db k latest earliest (named, rest) inside row =
      let (m', db', e, inside', row') =
        add-Holds reliable m db j k n latest earliest named inside row in
      subst
        (λ s.
          Holds k (last_added k (add j n ∷ calls) latest) (first_added k (add j n ∷ calls) earliest)
            (run calls s))
        (sym e) (run-Holds reliable calls m' db' k _ _ rest inside' row')
  run-Holds reliable (remove j ∷ calls) m db k latest earliest (named, rest) inside row =
      let (m', db', e, inside', row') =
        remove-Holds reliable m db j k latest earliest named inside row in
      subst
        (λ s.
          Holds k (last_added k (remove j ∷ calls) latest)
            (first_added k (remove j ∷ calls) earliest) (run calls s))
        (sym e) (run-Holds reliable calls m' db' k _ _ rest inside' row')

  -- From an empty map and an empty table, and while the table answers, any calls of
  -- `AddNetworkNode` and `RemoveNetworkNode` with names that are not empty leave, under each name,
  -- the node that was added last in the map, and the node that was added first since it was removed
  -- in the table, from which the map is loaded when the program starts again.
  pub table_keeps_first_node :
      IsReliable
      → (calls : List Call) (db : table.Db) (k : String) → Named calls
      → table.row db k ≡ none
      → let s = run calls (with_database [] db) in
        (network_node k s.nodes_map ≡ last_added k calls none)
        × ((db' : table.Db) × (s.network_node_db ≡ some db')
            × (table.row db' k ≡ rows_of (first_added k calls none)))
  unfolding lookup_node
  table_keeps_first_node reliable calls db k named empty =
      let (inside, there) = run-Holds reliable calls [] db k none none named refl empty in
      (ap node_at inside ∙ node_at-stored (last_added k calls none), there)
