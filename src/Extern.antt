-- ===== src/Extern.antt =====
-- The services that the program calls and does not implement, each as a record of operations with
-- the documented behaviour that the code relies on. `none` is always the error result. Whether a
-- call fails depends on the state of the service, and a call that fails has changed nothing.
pub mod Memory
use lohpi.Common.{
  if◌then◌else◌, Outcome, ok, ℕ, String, ◌≡◌, Bool, true, false, Option, none, some, List, str_eq,
}

-- `INSERT … ON CONFLICT DO NOTHING` keeps the row that is there
abbrev pub keep_old {ℓ} : {A : Type ℓ} → A → Option A → Option A
keep_old new none = some new
keep_old new (some old) = some old

abbrev pub is_some {ℓ} : {A : Type ℓ} → Option A → Bool
is_some none = false
is_some (some _) = true

abbrev pub map_some {ℓ} : {A : Type ℓ} → (A → A) → Option A → Option A
map_some f none = none
map_some f (some a) = some (f a)

-- an error of the cache is logged, and the call goes on
abbrev pub or_same {ℓ} : {A : Type ℓ} → A → Outcome A → A
or_same old (ok new) = new
or_same old _ = old

-- A table of PostgreSQL with one unique text column: `delete` also returns how many rows
-- it removed, behind `database/sql`. `row` is what the
-- table holds under a key; the program sees it only through the other operations.
pub record Table (Row : Type 0) : Type 1 where
  pub Db : Type 0
  pub row : Db → String → Option Row
  pub select : Db → String → Option (Option Row)
  pub exists : Db → String → Option Bool
  pub insert : Db → String → Row → Option Db
  pub upsert : Db → String → Row → Option Db
  pub update : Db → String → (Row → Row) → Option Db
  pub delete : Db → String → Option (ℕ × Db)
  pub keys : Db → Option (List String)
  pub select_row : (db : Db) (k : String) (o : Option Row) → select db k ≡ some o → row db k ≡ o
  pub exists_row : (db : Db) (k : String) (b : Bool) → exists db k ≡ some b → is_some (row db k) ≡ b
  pub insert_row :
      (db : Db) (k : String) (r : Row) (db' : Db) (j : String)
      → insert db k r ≡ some db'
      → row db' j ≡ (if str_eq k j then keep_old r (row db k) else row db j)
  pub upsert_row :
      (db : Db) (k : String) (r : Row) (db' : Db) (j : String)
      → upsert db k r ≡ some db'
      → row db' j ≡ (if str_eq k j then some r else row db j)
  pub update_row :
      (db : Db) (k : String) (f : Row → Row) (db' : Db) (j : String)
      → update db k f ≡ some db'
      → row db' j ≡ (if str_eq k j then map_some f (row db k) else row db j)
  pub delete_row :
      (db : Db) (k : String) (n : ℕ) (db' : Db) (j : String)
      → delete db k ≡ some (n, db')
      → row db' j ≡ (if str_eq k j then none else row db j)
  pub delete_count :
      (db : Db) (k : String) (n : ℕ) (db' : Db)
      → delete db k ≡ some (n, db')
      → n ≡ (if is_some (row db k) then 1 else 0)

-- what a service with a cache holds: `redisClient` is nil where no options are given
pub record Cached (Mem Db : Type 0) : Type 0 where
  pub cache : Option Mem
  pub db : Db

-- A Redis server that holds encoded values, as one client of it sees it. `del` also returns how many keys it removed.
pub record Redis (Bytes : Type 0) : Type 1 where
  pub Mem : Type 0
  pub entry : Mem → String → Option Bytes
  pub mget : Mem → String → Option (Option Bytes)
  pub exists : Mem → String → Option ℕ
  pub scan : Mem → Option (List String)
  pub set : Mem → String → Bytes → Option Mem
  pub del : Mem → String → Option (ℕ × Mem)
  pub mget_entry : (m : Mem) (k : String) (o : Option Bytes) → mget m k ≡ some o → entry m k ≡ o
  pub exists_entry :
      (m : Mem) (k : String) (n : ℕ)
      → exists m k ≡ some n
      → n ≡ (if is_some (entry m k) then 1 else 0)
  pub set_entry :
      (m : Mem) (k : String) (v : Bytes) (m' : Mem) (j : String)
      → set m k v ≡ some m'
      → entry m' j ≡ (if str_eq k j then some v else entry m j)
  pub del_entry :
      (m : Mem) (k : String) (n : ℕ) (m' : Mem) (j : String)
      → del m k ≡ some (n, m')
      → entry m' j ≡ (if str_eq k j then none else entry m j)

-- protobuf's encoding of one message type; `Bytes` are the encoded messages
pub record Codec (A Bytes : Type 0) : Type 0 where
  pub marshal : A → Option Bytes
  pub unmarshal : Bytes → Option A
  pub unmarshal-marshal : (a : A) (b : Bytes) → marshal a ≡ some b → unmarshal b ≡ some a
