-- ===== src/Directory/Http.antt =====
-- The handlers of core/directoryserver/http.go. A request for a dataset is forwarded to the node
-- that stores it, whose answer is streamed to the client. `ask` gives what the HTTP client returns.
pub mod Delivery
mod Tests
use lohpi.Common.{
  ◌==◌, if◌then◌else◌, nil_argument, Outcome, ok, err, panic, assign, entry_of, ℕ, String, Bool,
  true, false, Option, none, some, List, [], ◌∷◌, ◌++◌, str_eq,
}
use lohpi.Proto.{Timestamp, Node, Client, DatasetCheckout}
use lohpi.Streaming.{
  ReadResult, StreamResult, finished, failed, reading, ResponseWriter, stream_to_response_writer,
}
use lohpi.LookupService.{dataset_node, dataset_node_exists, dataset_identifiers}
use lohpi.LookupService
use lohpi.Checkout.{checkout_dataset}
use lohpi.Checkout
use lohpi.Membership.{MembershipState, add_network_node}
use lohpi.Membership
use lohpi.Node.Http.{Settings, get_bearer_token, jwt_token_to_pb_client}
use lohpi.PolicyStore.Core.{HandshakeResponse, welcomed}
use lohpi.Directory.{is_listed}

-- the resource of the node: its path is "/dataset/data/" or "/dataset/metadata/" and the identifier
pub data Resource : Type 0 where
  data_of metadata_of : String → Resource

-- the request that is sent to the node
pub record ForwardedRequest : Type 0 where
  pub host : String
  pub port : ℕ
  pub path : Resource
  pub token : Option (List ℕ)

-- the answer of the node: its status, and what the calls of `Read` on its body return
pub record Response : Type 0 where
  pub status_code : ℕ
  pub body : List ReadResult

-- what the client is sent: an error, what was streamed, and what comes behind it
pub data HttpReply (Writer : Type 0) : Type 0 where
  denied : ℕ → HttpReply Writer
  delivered : Writer → HttpReply Writer
  broken_off : Writer → ℕ → HttpReply Writer
  unfinished : Writer → HttpReply Writer
  crashed_handler : HttpReply Writer

-- the status codes of net/http that the handlers write
abbrev pub bad_request : ℕ
bad_request = 400

abbrev pub not_found_code : ℕ
not_found_code = 404

abbrev pub gone : ℕ
gone = 410

abbrev pub internal_server_error : ℕ
internal_server_error = 500

abbrev pub service_unavailable : ℕ
service_unavailable = 503

-- `insertCheckedOutDataset`: the clients that have checked out a dataset, in order
unfoldable pub insert_checked_out_dataset :
    String → String → List (String × List String) → List (String × List String)
insert_checked_out_dataset dataset_id client_id m = elim (entry_of dataset_id m) [
  | none ↦ assign dataset_id (client_id ∷ []) m
  | some clients ↦ assign dataset_id (clients ++ client_id ∷ []) m
]

-- `getDatasetPolicyVerification`: whether the dataset is invalidated
unfoldable pub get_dataset_policy_verification : String → List String → Bool
unfolding is_listed
get_dataset_policy_verification dataset_id invalidated = is_listed invalidated dataset_id

-- the `Handshake` of the directory server
module _ (members : Membership.Services) (me : Node) where
  unfoldable pub directory_handshake :
      Option Node → MembershipState members → MembershipState members × Outcome HandshakeResponse
  directory_handshake none s = (s, err nil_argument)
  directory_handshake (some n) s = welcomed members me (add_network_node members n.name (some n) s)

module _ (lookups : LookupService.Services) (checkouts : Checkout.Services)
    (writer : ResponseWriter) where
  open writer use {Writer}

  pub record HttpState : Type 0 where
    pub lookup : LookupService.State lookups
    pub checked_out : Checkout.State checkouts

  abbrev pub HttpResult : Type 0
  HttpResult = HttpState × HttpReply Writer

  abbrev pub checkout_of : String → Client → Timestamp → DatasetCheckout
  checkout_of dataset_id client now = record {
    dataset_identifier = dataset_id;
    date_checkout = some now;
    client = some client;
  }

  abbrev pub recorded :
      HttpState → Writer → Checkout.State checkouts × Outcome (Unit {0}) → HttpResult
  recorded s w (c, ok _) = (record s { checked_out = c }, delivered w)
  recorded s w (c, err e) = (record s { checked_out = c }, broken_off w internal_server_error)
  recorded s w (c, panic) = (record s { checked_out = c }, crashed_handler)

  -- the checkout is recorded once the body was streamed to its end
  abbrev pub streamed_data :
      String → Client → Timestamp → HttpState → Writer × StreamResult → HttpResult
  streamed_data dataset_id client now s (w, finished) = recorded s w (
      checkout_dataset checkouts dataset_id (some (checkout_of dataset_id client now))
        s.checked_out)
  streamed_data dataset_id client now s (w, failed) = (s, broken_off w internal_server_error)
  streamed_data dataset_id client now s (w, reading) = (s, unfinished w)

  abbrev pub data_answered :
      String → Client → Timestamp → Writer → HttpState → Option Response → HttpResult
  data_answered dataset_id client now w s none = (s, denied bad_request)
  data_answered dataset_id client now w s (some r) =
      if r.status_code == 200
      then streamed_data dataset_id client now s (stream_to_response_writer writer r.body w)
      else (s, denied r.status_code)

  -- the request for the data: the token of the client is passed on
  abbrev pub data_request : String → List ℕ → Node → ForwardedRequest
  data_request dataset_id token n = record {
    host = n.https_address;
    port = n.port;
    path = data_of dataset_id;
    token = some token;
  }

  abbrev pub data_with_client :
      (ForwardedRequest → Option Response)
      → String
      → List ℕ
      → Timestamp
      → Writer
      → Node
      → HttpState
      → Outcome Client
      → HttpResult
  data_with_client ask dataset_id token now w n s (ok client) =
      data_answered dataset_id client now w s (ask (data_request dataset_id token n))
  data_with_client ask dataset_id token now w n s _ = (s, denied internal_server_error)

  -- the node of a dataset, or the error that says that there is none
  abbrev pub at_node : HttpState → (Node → HttpResult) → Outcome (Option Node) → HttpResult
  at_node s next (ok (some n)) = next n
  at_node s next (ok none) = (s, denied gone)
  at_node s next _ = (s, crashed_handler)

  abbrev pub where_stored :
      String
      → HttpState
      → (HttpState → Node → HttpResult)
      → LookupService.State lookups × Outcome Bool
      → HttpResult
  where_stored dataset_id s next (l, ok true) =
      at_node (record s { lookup = l }) (next (record s { lookup = l }))
        (dataset_node lookups l dataset_id)
  where_stored dataset_id s next (l, ok false) = (record s { lookup = l }, denied not_found_code)
  where_stored dataset_id s next (l, _) = (record s { lookup = l }, crashed_handler)

  abbrev pub with_token :
      Settings
      → (ForwardedRequest → Option Response)
      → String
      → Writer
      → HttpState
      → Outcome (List ℕ)
      → HttpResult
  with_token settings ask dataset_id w s (ok token) =
      where_stored dataset_id s
        (λ s' n.
          data_with_client ask dataset_id token settings.now w n s'
            (jwt_token_to_pb_client settings token))
        (dataset_node_exists lookups dataset_id s.lookup)
  with_token settings ask dataset_id w s _ = (s, denied bad_request)

  -- the handler `getDataset`, for the Authorization header and the identifier of the path
  unfoldable pub directory_get_dataset :
      Settings
      → (ForwardedRequest → Option Response)
      → List ℕ
      → String
      → Writer
      → HttpState
      → HttpResult
  directory_get_dataset settings ask header dataset_id w s =
      with_token settings ask dataset_id w s (get_bearer_token header)

  abbrev pub streamed_metadata : HttpState → Writer × StreamResult → HttpResult
  streamed_metadata s (w, finished) = (s, delivered w)
  streamed_metadata s (w, failed) = (s, broken_off w internal_server_error)
  streamed_metadata s (w, reading) = (s, unfinished w)

  abbrev pub metadata_answered : Writer → HttpState → Option Response → HttpResult
  metadata_answered w s none = (s, denied service_unavailable)
  metadata_answered w s (some r) =
      if r.status_code == 200
      then streamed_metadata s (stream_to_response_writer writer r.body w)
      else (s, denied r.status_code)

  abbrev pub metadata_request : String → Node → ForwardedRequest
  metadata_request dataset_id n = record {
    host = n.https_address;
    port = n.port;
    path = metadata_of dataset_id;
    token = none;
  }

  -- the handler `getDatasetMetadata`
  unfoldable pub directory_get_metadata :
      (ForwardedRequest → Option Response) → String → Writer → HttpState → HttpResult
  directory_get_metadata ask dataset_id w s =
      if str_eq dataset_id ""
      then (s, denied bad_request)
      else where_stored dataset_id s
          (λ s' n. metadata_answered w s' (ask (metadata_request dataset_id n)))
          (dataset_node_exists lookups dataset_id s.lookup)
