-- ===== src/Node/Http/Tests.antt =====
-- The HTTP handlers of the storage node over services in memory.
use lohpi.Common.{codes, ok, ℕ, ◌≡◌, refl, sym, ◌↔◌, true, false, none, some, List, [], ◌∷◌, ◌++◌}
use lohpi.Proto.{Dataset, Client, DatasetCheckout}
use lohpi.Timestamp.{to_timestamppb}
use lohpi.Extern.Memory.{memory_table, memory_redis, plain_codec, some-eq}
use lohpi.Indexer.{Row, Services, dataset_exists, get_dataset_policy}
use lohpi.Checkout
use lohpi.Checkout.{any_row, checkout_dataset}
use lohpi.Node.Http.{
  Settings, get_bearer_token, jwt_token_to_pb_client, client_of, NodeState, get_dataset,
}
use lohpi.Node.Http.Token.{NoSpaces, get_bearer_token_iff}
use lohpi.Node.Http.Access.{was_served, Granted, get_dataset-Granted}

abbrev some_date : List ℕ
some_date = codes "seconds:12 nanos:5"

abbrev in_memory : Services
in_memory = record {
  Bytes = Dataset;
  table = memory_table Row;
  redis = memory_redis Dataset;
  codec = plain_codec Dataset;
  timestamp_text = λ t. some_date;
}

rows_in : Checkout.CheckoutTable
unfolding any_row
rows_in = record {
  Db = List Checkout.Row;
  rows = λ db. db;
  insert = λ db r. some (r ∷ db);
  exists = λ db f. some (any_row f db);
  query_row = λ db placeholders arguments f. none;
  insert_rows = λ db r db' h. sym (some-eq _ _ h);
  exists_rows = λ db f b h. sym (some-eq _ _ h);
  query_row_refused = λ db placeholders arguments f h. refl;
}

checkouts : Checkout.Services
unfolding rows_in
checkouts = record {
  Bytes = DatasetCheckout;
  table = rows_in;
  redis = memory_redis DatasetCheckout;
  codec = plain_codec DatasetCheckout;
  timestamp_text = λ t. [];
}

abbrev alice : Client
alice = record { name = "Alice"; id = "1"; email_address = "a@uit.no"; mac_address = "" }

abbrev settings : Settings
settings = record {
  parse_token = λ token. some alice;
  has_dataset_handler = true;
  has_metadata_handler = false;
  now = record { seconds = 12; nanos = 5 };
}

one_open : NodeState in_memory checkouts
unfolding memory_table memory_redis checkouts rows_in
one_open = record {
  datasets = record {
    cache = none;
    db =
        (
          "d",
          record {
            allow_multiple_checkout = false;
            policy_content = true;
            policy_version = 1;
            date_created = some_date;
            date_applied = some_date;
          },
        )
        ∷ [];
  };
  checked_out = record { cache = none; db = [] };
}

abbrev header : List ℕ
header = codes "Bearer t"

is_served : was_served (get_dataset in_memory checkouts settings header "d" one_open).1 ≡ true
unfolding get_dataset get_bearer_token jwt_token_to_pb_client dataset_exists get_dataset_policy
    checkout_dataset one_open memory_table memory_redis checkouts rows_in to_timestamppb
is_served = refl

get_dataset-Granted_example :
    ((client : Client) × (client_of settings header ≡ ok client))
    × Granted in_memory checkouts
        (get_dataset in_memory checkouts settings header "d" one_open).0.datasets.db
        "d"
get_dataset-Granted_example =
    get_dataset-Granted in_memory checkouts settings header "d" one_open is_served

get_bearer_token_iff_example :
    (get_bearer_token header ≡ ok (codes "t"))
    ↔ ((a : List ℕ) × NoSpaces a × NoSpaces (codes "t") × (header ≡ a ++ (32 ∷ codes "t")))
get_bearer_token_iff_example = get_bearer_token_iff header (codes "t")
