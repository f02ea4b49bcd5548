-- ===== src/Checkout.antt =====
-- `DatasetCheckoutServiceUnit` of core/datasetmanager/datasetcheckoutservice.go and
-- datasetcheckoutservicedb.go: who has checked out which dataset. The table has no key.
pub mod Laws
mod Tests
use lohpi.Common.{
  if◌then◌else◌, nil_argument, empty_argument, sql_error, redis_error, codec_error, Outcome, ok,
  err, panic, ◌>>=◌, or_err, ℕ, String, ◌≡◌, ◌≢◌, Bool, false, ◌&&◌, ◌||◌, Option, none, some, List,
  [], ◌∷◌, str_eq,
}
use lohpi.Proto.{Timestamp, Client, DatasetCheckout}
use lohpi.Timestamp.{to_timestamppb}
use lohpi.Extern.{or_same, Cached, Redis, Codec}

pub record Row : Type 0 where
  pub dataset_id : String
  pub client_id : String
  pub client_name : String
  pub mac_address : String
  pub email_address : String
  pub date_checkout : List ℕ

unfoldable pub any_row : (Row → Bool) → List Row → Bool
any_row f [] = false
any_row f (r ∷ rows) = f r || any_row f rows

-- A table of PostgreSQL without a key. A query gives how many placeholders its text has and how
-- many arguments come with it: the driver refuses it where these differ.
pub record CheckoutTable : Type 1 where
  pub Db : Type 0
  pub rows : Db → List Row
  pub insert : Db → Row → Option Db
  pub exists : Db → (Row → Bool) → Option Bool
  pub query_row : Db → ℕ → ℕ → (Row → Bool) → Option Row
  pub insert_rows : (db : Db) (r : Row) (db' : Db) → insert db r ≡ some db' → rows db' ≡ r ∷ rows db
  pub exists_rows :
      (db : Db) (f : Row → Bool) (b : Bool) → exists db f ≡ some b → b ≡ any_row f (rows db)
  pub query_row_refused :
      (db : Db) (placeholders arguments : ℕ) (f : Row → Bool)
      → placeholders ≢ arguments
      → query_row db placeholders arguments f ≡ none

pub record Services : Type 1 where
  pub Bytes : Type 0
  pub table : CheckoutTable
  pub redis : Redis Bytes
  pub codec : Codec DatasetCheckout Bytes
  pub timestamp_text : Option Timestamp → List ℕ

abbrev pub client_id_of : Option Client → String
client_id_of none = ""
client_id_of (some c) = c.id

abbrev pub client_name_of : Option Client → String
client_name_of none = ""
client_name_of (some c) = c.name

abbrev pub mac_address_of : Option Client → String
mac_address_of none = ""
mac_address_of (some c) = c.mac_address

abbrev pub email_address_of : Option Client → String
email_address_of none = ""
email_address_of (some c) = c.email_address

-- the condition of the query of `dbDatasetIsCheckedOutByClient`
unfoldable pub is_of : String → Client → Row → Bool
is_of k c r =
    str_eq r.dataset_id k
    && str_eq r.client_id c.id
    && str_eq r.client_name c.name
    && str_eq r.mac_address c.mac_address

module _ (ext : Services) where
  open ext use {Bytes, table, redis, codec, timestamp_text}

  abbrev pub State : Type 0
  State = Cached redis.Mem table.Db

  -- the columns that `dbCheckoutDataset` writes; the getters are safe on a nil client
  unfoldable pub to_row : String → DatasetCheckout → Row
  to_row dataset_id co = record {
    dataset_id = dataset_id;
    client_id = client_id_of co.client;
    client_name = client_name_of co.client;
    mac_address = mac_address_of co.client;
    email_address = email_address_of co.client;
    date_checkout = timestamp_text co.date_checkout;
  }

  unfoldable pub cache_checkout_dataset : redis.Mem → String → DatasetCheckout → Outcome redis.Mem
  cache_checkout_dataset m dataset_id co =
      or_err codec_error (codec.marshal co) >>= λ b. or_err redis_error (redis.set m dataset_id b)

  abbrev pub cache_after_checkout : Option redis.Mem → String → DatasetCheckout → Option redis.Mem
  cache_after_checkout none dataset_id co = none
  cache_after_checkout (some m) dataset_id co =
      some (or_same m (cache_checkout_dataset m dataset_id co))

  unfoldable pub db_checkout_dataset : table.Db → String → DatasetCheckout → Outcome table.Db
  unfolding to_row
  db_checkout_dataset db dataset_id co = or_err sql_error (table.insert db (to_row dataset_id co))

  -- the new database, or the old one under an error
  abbrev pub with_db : State → Outcome table.Db → State × Outcome (Unit {0})
  with_db s (ok db') = (record s { db = db' }, ok tt)
  with_db s (err e) = (s, err e)
  with_db s panic = (s, panic)

  -- `CheckoutDataset`
  unfoldable pub checkout_dataset :
      String → Option DatasetCheckout → State → State × Outcome (Unit {0})
  unfolding cache_checkout_dataset db_checkout_dataset
  checkout_dataset dataset_id none s = (s, err nil_argument)
  checkout_dataset dataset_id (some co) s =
      with_db (record s { cache = cache_after_checkout s.cache dataset_id co })
        (db_checkout_dataset s.db dataset_id co)

  -- `DatasetIsCheckedOut` and `dbDatasetIsCheckedOutByClient`, which repeats its guards
  unfoldable pub dataset_is_checked_out : State → String → Option Client → Outcome Bool
  unfolding is_of
  dataset_is_checked_out s dataset_id none =
      if str_eq dataset_id "" then err empty_argument else err nil_argument
  dataset_is_checked_out s dataset_id (some c) =
      if str_eq dataset_id ""
      then err empty_argument
      else or_err sql_error (table.exists s.db (is_of dataset_id c))

  -- the condition of the query of `dbSelectDatasetCheckout`, whose third argument is the name
  abbrev pub selects : String → Client → Row → Bool
  selects k c r = str_eq r.dataset_id k && str_eq r.client_id c.id && str_eq r.mac_address c.name

  abbrev pub from_row : Row → Timestamp → DatasetCheckout
  from_row r t = record {
    dataset_identifier = r.dataset_id;
    date_checkout = some t;
    client = some (record {
      name = r.client_name;
      id = r.client_id;
      email_address = r.email_address;
      mac_address = r.mac_address;
    });
  }

  -- the text of the query has three placeholders, and four arguments come with it
  unfoldable pub db_select_dataset_checkout : table.Db → String → Client → Outcome DatasetCheckout
  db_select_dataset_checkout db dataset_id c =
      or_err sql_error (table.query_row db 3 4 (selects dataset_id c)) >>= λ r.
      to_timestamppb r.date_checkout >>= λ t. ok (from_row r t)

  abbrev pub nil_on_error {ℓ} : {A : Type ℓ} → Outcome A → Outcome (Option A)
  nil_on_error (ok a) = ok (some a)
  nil_on_error (err e) = ok none
  nil_on_error panic = panic

  -- `DatasetCheckout`: an error is logged, and the result is nil
  unfoldable pub dataset_checkout :
      State → String → Option Client → Outcome (Option DatasetCheckout)
  unfolding db_select_dataset_checkout
  dataset_checkout s dataset_id none = ok none
  dataset_checkout s dataset_id (some c) =
      if str_eq dataset_id ""
      then ok none
      else nil_on_error (db_select_dataset_checkout s.db dataset_id c)
