-- ===== src/Checkout/Tests.antt =====
-- The checkout service over services in memory.
use lohpi.Common.{
  ◌==◌, if◌then◌else◌, ==_iff, Bool-cases, ok, ℕ, ◌≡◌, refl, sym, ◌≢◌, inl, inr, Bool, true, false,
  ◌||◌, Option, none, some, List, [], ◌∷◌,
}
use lohpi.Proto.{Client, DatasetCheckout}
use lohpi.Extern.Memory.{some-eq, memory_redis, plain_codec}
use lohpi.Checkout.{
  Row, any_row, CheckoutTable, Services, State, to_row, checkout_dataset, dataset_is_checked_out,
  dataset_checkout,
}
use lohpi.Checkout.Laws.{names, is_for, checkout_is_found, dataset_checkout_finds_nothing}

abbrev first_if_any : (Row → Bool) → List Row → Option Row
first_if_any f [] = none
first_if_any f (r ∷ rows) = if f r then some r else first_if_any f rows

-- a query with the wrong number of arguments is refused
abbrev query_in : List Row → ℕ → ℕ → (Row → Bool) → Option Row
query_in rows placeholders arguments f =
    if placeholders == arguments then first_if_any f rows else none

refused_in :
    (rows : List Row) (placeholders arguments : ℕ) (f : Row → Bool)
    → placeholders ≢ arguments
    → query_in rows placeholders arguments f ≡ none
refused_in rows placeholders arguments f h = elim (Bool-cases (placeholders == arguments)) [
  | inl same ↦ absurd (h ((==_iff placeholders arguments).0 same))
  | inr other ↦ rw other refl
]

rows_in : CheckoutTable
unfolding any_row
rows_in = record {
  Db = List Row;
  rows = λ db. db;
  insert = λ db r. some (r ∷ db);
  exists = λ db f. some (any_row f db);
  query_row = query_in;
  insert_rows = λ db r db' h. sym (some-eq _ _ h);
  exists_rows = λ db f b h. sym (some-eq _ _ h);
  query_row_refused = refused_in;
}

in_memory : Services
unfolding rows_in
in_memory = record {
  Bytes = DatasetCheckout;
  table = rows_in;
  redis = memory_redis DatasetCheckout;
  codec = plain_codec DatasetCheckout;
  timestamp_text = λ t. [];
}

abbrev alice : Client
alice = record { name = "Alice"; id = "1"; email_address = "a@uit.no"; mac_address = "" }

abbrev of_alice : DatasetCheckout
of_alice = record { dataset_identifier = "d"; date_checkout = none; client = some alice }

nobody : State in_memory
unfolding in_memory rows_in memory_redis
nobody = record { cache = some []; db = [] }

only_alice : State in_memory
unfolding in_memory rows_in memory_redis to_row nobody
only_alice = record { cache = some (("d", of_alice) ∷ []); db = to_row in_memory "d" of_alice ∷ [] }

alice_checks_out : checkout_dataset in_memory "d" (some of_alice) nobody ≡ (only_alice, ok tt)
unfolding checkout_dataset nobody only_alice in_memory rows_in memory_redis plain_codec
alice_checks_out = refl

alice_has_it : dataset_is_checked_out in_memory only_alice "d" (some alice) ≡ ok true
unfolding dataset_is_checked_out only_alice in_memory rows_in
alice_has_it = refl

-- another client of the same name
abbrev other_alice : Client
other_alice = record alice { id = "2" }

other_has_not : dataset_is_checked_out in_memory only_alice "d" (some other_alice) ≡ ok false
unfolding dataset_is_checked_out only_alice in_memory rows_in
other_has_not = refl

checkout_is_found_example : false ≡ (
    is_for "d" (some alice) "d" other_alice
    || any_row (names "d" other_alice) (in_memory.table.rows nobody.db))
checkout_is_found_example =
    checkout_is_found in_memory nobody only_alice "d" "d" of_alice other_alice false
      alice_checks_out other_has_not

dataset_checkout_finds_nothing_example :
    dataset_checkout in_memory only_alice "d" (some alice) ≡ ok none
dataset_checkout_finds_nothing_example =
    dataset_checkout_finds_nothing in_memory only_alice "d" (some alice)
