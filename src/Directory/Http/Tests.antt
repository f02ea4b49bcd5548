-- ===== src/Directory/Http/Tests.antt =====
-- A directory server over services in memory, and a node that answers.
use lohpi.Common.{
  codes, ℕ, ◌≡◌, refl, sym, ◌⊎◌, true, false, Option, none, some, List, [], ◌∷◌, ◌++◌,
}
use lohpi.Proto.{Client, DatasetCheckout}
use lohpi.Extern.Memory.{some-eq, memory_table, memory_redis, plain_codec}
use lohpi.Timestamp.{to_timestamppb}
use lohpi.Streaming.{no_error, end_of_file, ResponseWriter, stream_to_response_writer}
use lohpi.LookupService.{dataset_node, dataset_node_exists, db_dataset_node_exists}
use lohpi.Checkout.{any_row, checkout_dataset}
use lohpi.Checkout
use lohpi.PolicyStore.Memory.{some_date, lookups}
use lohpi.Node.Http.{Settings, get_bearer_token, jwt_token_to_pb_client}
use lohpi.Directory.Http.{ForwardedRequest, Response, HttpState, HttpResult, directory_get_dataset}
use lohpi.Directory.Http.Delivery.{was_sent, Refused, directory_get_dataset-Forwarded, Forwarded}

checkout_table : Checkout.CheckoutTable
unfolding any_row
checkout_table = record {
  Db = List Checkout.Row;
  rows = λ db. db;
  insert = λ db r. some (r ∷ db);
  exists = λ db f. some (any_row f db);
  query_row = λ db placeholders arguments f. none;
  insert_rows = λ db r db' h. sym (some-eq _ _ h);
  exists_rows = λ db f b h. sym (some-eq _ _ h);
  query_row_refused = λ db placeholders arguments f h. refl;
}

checkouts : Checkout.Services
unfolding checkout_table
checkouts = record {
  Bytes = DatasetCheckout;
  table = checkout_table;
  redis = memory_redis DatasetCheckout;
  codec = plain_codec DatasetCheckout;
  timestamp_text = λ t. [];
}

-- a writer that keeps what it is sent
byte_writer : ResponseWriter
byte_writer = record {
  Writer = List ℕ;
  sent = λ w. w;
  write = λ w bytes. some (w ++ bytes);
  write_sent = λ w bytes w' h. sym (some-eq _ _ h);
}

nothing_sent : byte_writer.Writer
unfolding byte_writer
nothing_sent = []

abbrev alice : Client
alice = record { name = "Alice"; id = "1"; email_address = "a@uit.no"; mac_address = "" }

abbrev settings : Settings
settings = record {
  parse_token = λ token. some alice;
  has_dataset_handler = true;
  has_metadata_handler = false;
  now = record { seconds = 12; nanos = 5 };
}

abbrev answers : ForwardedRequest → Option Response
answers r =
    some (record { status_code = 200; body = (1 ∷ 2 ∷ [], no_error) ∷ ([], end_of_file) ∷ [] })

state : HttpState lookups checkouts byte_writer
unfolding memory_table checkouts checkout_table
state = record {
  lookup = record {
    cache = none;
    db =
        (
          "d",
          record {
            node_id = "n";
            ip_address = "";
            public_id = [];
            https_address = "10.0.0.1";
            port = 9000;
            boottime = some_date;
          },
        )
        ∷ [];
  };
  checked_out = record { cache = none; db = [] };
}

abbrev served : HttpResult lookups checkouts byte_writer
served =
    directory_get_dataset lookups checkouts byte_writer settings answers (codes "Bearer t") "d"
      nothing_sent state

-- the dataset is delivered
served-was_sent : was_sent served.1 ≡ true
unfolding directory_get_dataset get_bearer_token jwt_token_to_pb_client dataset_node_exists
    db_dataset_node_exists dataset_node memory_table memory_redis plain_codec to_timestamppb
    stream_to_response_writer byte_writer nothing_sent state checkouts checkout_table
    checkout_dataset
served-was_sent = refl

directory_get_dataset-Forwarded_example :
    Refused lookups checkouts byte_writer state served
    ⊎ Forwarded lookups checkouts byte_writer settings answers
        (codes "Bearer t")
        "d"
        nothing_sent
        state
        served
directory_get_dataset-Forwarded_example =
    directory_get_dataset-Forwarded lookups checkouts byte_writer settings answers
      (codes "Bearer t") "d" nothing_sent state
