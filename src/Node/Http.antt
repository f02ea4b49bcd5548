-- ===== src/Node/Http.antt =====
-- The HTTP handlers of core/node/http.go that read or change datasets. Texts are lists of
-- characters. `Settings` has what the handlers get from outside: the parser of tokens
-- (`jwtTokenToPbClient` calls a JWS library), whether the embedding program has set its handlers,
-- and the clock.
pub mod Token
pub mod Access
mod PolicyChange
mod Tests
use lohpi.Common.{
  ◌==◌, if◌then◌else◌, empty_argument, format_error, Outcome, ok, err, panic, ◌>>=◌, or_err, ℕ,
  String, Bool, true, false, Option, some, List, [], ◌∷◌, str_eq,
}
use lohpi.Proto.{Timestamp, Policy, Dataset, Client, DatasetCheckout, empty_policy, get_content}
use lohpi.Indexer.{
  Services, State, insert_dataset, dataset_exists, remove_dataset, get_dataset_policy,
}
use lohpi.Checkout.{checkout_dataset}
use lohpi.Checkout

pub data Status : Type 0 where
  status_ok bad_request unauthorized status_not_found internal_error not_implemented : Status

-- what is written to the client: an error, or what a handler of the embedding program writes,
-- after which an error may still be written
pub data Reply : Type 0 where
  refused : Status → Reply
  confirmed : Reply
  served : Reply
  served_then : Status → Reply
  aborted : Reply

pub record Settings : Type 0 where
  pub parse_token : List ℕ → Option Client
  pub has_dataset_handler : Bool
  pub has_metadata_handler : Bool
  pub now : Timestamp

-- strings.Split(s, " ")
unfoldable pub push_char : ℕ → List (List ℕ) → List (List ℕ)
push_char c [] = (c ∷ []) ∷ []
push_char c (w ∷ ws) = (c ∷ w) ∷ ws

unfoldable pub split_spaces : List ℕ → List (List ℕ)
unfolding push_char
split_spaces [] = [] ∷ []
split_spaces (c ∷ s) = let rest = split_spaces s in if c == 32 then [] ∷ rest else push_char c rest

abbrev pub second_of_two : List (List ℕ) → Outcome (List ℕ)
second_of_two (a ∷ b ∷ []) = ok b
second_of_two _ = err format_error

-- `getBearerToken`, on the Authorization header
unfoldable pub get_bearer_token : List ℕ → Outcome (List ℕ)
unfolding split_spaces
get_bearer_token header = second_of_two (split_spaces header)

-- `jwtTokenToPbClient`: an empty token is refused
unfoldable pub jwt_token_to_pb_client : Settings → List ℕ → Outcome Client
jwt_token_to_pb_client settings [] = err empty_argument
jwt_token_to_pb_client settings (c ∷ token) = or_err format_error (settings.parse_token (c ∷ token))

-- the client of a request
abbrev pub client_of : Settings → List ℕ → Outcome Client
client_of settings header = get_bearer_token header >>= jwt_token_to_pb_client settings

module _ (ext : Services) (checkouts : Checkout.Services) where
  -- what the handlers change
  pub record NodeState : Type 0 where
    pub datasets : State ext
    pub checked_out : Checkout.State checkouts

  abbrev pub checkout_of : Settings → String → Client → DatasetCheckout
  checkout_of settings dataset_id client = record {
    dataset_identifier = dataset_id;
    date_checkout = some settings.now;
    client = some client;
  }

  abbrev pub after_checkout :
      State ext → Checkout.State checkouts × Outcome (Unit {0}) → NodeState × Reply
  after_checkout s (c, ok _) = (record { datasets = s; checked_out = c }, served)
  after_checkout s (c, err e) =
      (record { datasets = s; checked_out = c }, served_then internal_error)
  after_checkout s (c, panic) = (record { datasets = s; checked_out = c }, aborted)

  -- the data is written first, then the checkout is recorded
  abbrev pub serve : Settings → String → Client → NodeState → NodeState × Reply
  serve settings dataset_id client n =
      if settings.has_dataset_handler
      then after_checkout n.datasets (
          checkout_dataset checkouts dataset_id (some (checkout_of settings dataset_id client))
            n.checked_out)
      else (n, refused not_implemented)

  abbrev pub with_policy :
      Settings → String → Client → NodeState → Outcome (Option Policy) → NodeState × Reply
  with_policy settings dataset_id client n panic = (n, aborted)
  with_policy settings dataset_id client n (err e) = (n, aborted)
  with_policy settings dataset_id client n (ok policy) =
      if get_content policy then serve settings dataset_id client n else (n, refused unauthorized)

  abbrev pub where_indexed :
      Settings
      → String
      → Client
      → Checkout.State checkouts
      → State ext × Outcome Bool
      → NodeState × Reply
  where_indexed settings dataset_id client c (s, ok true) =
      with_policy settings dataset_id client (record { datasets = s; checked_out = c })
        (get_dataset_policy ext s dataset_id)
  where_indexed settings dataset_id client c (s, ok false) =
      (record { datasets = s; checked_out = c }, refused status_not_found)
  where_indexed settings dataset_id client c (s, _) =
      (record { datasets = s; checked_out = c }, aborted)

  abbrev pub with_client : Settings → String → NodeState → Outcome Client → NodeState × Reply
  with_client settings dataset_id n (ok client) =
      where_indexed settings dataset_id client n.checked_out
        (dataset_exists ext dataset_id n.datasets)
  with_client settings dataset_id n _ = (n, refused bad_request)

  -- `getDataset`, for the identifier of the request's path and the Authorization header
  unfoldable pub get_dataset : Settings → List ℕ → String → NodeState → NodeState × Reply
  get_dataset settings header dataset_id n =
      with_client settings dataset_id n (client_of settings header)

  abbrev pub added : NodeState → State ext × Outcome (Unit {0}) → NodeState × Reply
  added n (s, ok _) = (record n { datasets = s }, confirmed)
  added n (s, err e) = (record n { datasets = s }, refused bad_request)
  added n (s, panic) = (record n { datasets = s }, aborted)

  -- the dataset that `addDataset` inserts: its policy is the zero policy
  abbrev pub new_dataset : String → Dataset
  new_dataset dataset_id = record {
    identifier = dataset_id;
    policy = some empty_policy;
    allow_multiple_checkouts = false;
  }

  -- `addDataset`
  unfoldable pub add_dataset : String → NodeState → NodeState × Reply
  add_dataset dataset_id n =
      if str_eq dataset_id ""
      then (n, refused bad_request)
      else added n (insert_dataset ext dataset_id (some (new_dataset dataset_id)) n.datasets)

  abbrev pub removed : NodeState → State ext × Outcome (Unit {0}) → NodeState × Reply
  removed n (s, ok _) = (record n { datasets = s }, confirmed)
  removed n (s, err e) = (record n { datasets = s }, refused internal_error)
  removed n (s, panic) = (record n { datasets = s }, aborted)

  abbrev pub remove_where : String → NodeState → State ext × Outcome Bool → NodeState × Reply
  remove_where dataset_id n (s, ok true) = removed n (remove_dataset ext dataset_id s)
  remove_where dataset_id n (s, ok false) = (record n { datasets = s }, refused status_not_found)
  remove_where dataset_id n (s, _) = (record n { datasets = s }, aborted)

  -- the handler `removeDataset`
  unfoldable pub remove_dataset_handler : String → NodeState → NodeState × Reply
  remove_dataset_handler dataset_id n =
      if str_eq dataset_id ""
      then (n, refused bad_request)
      else remove_where dataset_id n (dataset_exists ext dataset_id n.datasets)

  abbrev pub metadata_where : Settings → NodeState → State ext × Outcome Bool → NodeState × Reply
  metadata_where settings n (s, ok true) = (
    record n { datasets = s },
    if settings.has_metadata_handler then served else refused not_implemented,
  )
  metadata_where settings n (s, ok false) = (record n { datasets = s }, refused status_not_found)
  metadata_where settings n (s, _) = (record n { datasets = s }, aborted)

  -- `getMetadata`
  unfoldable pub get_metadata : Settings → String → NodeState → NodeState × Reply
  get_metadata settings dataset_id n =
      metadata_where settings n (dataset_exists ext dataset_id n.datasets)
