-- ===== src/Directory/Http/Delivery.antt =====
-- What lies behind a dataset that the directory server has delivered, and behind a recorded checkout.
use lohpi.Common.{
  ◌==◌, ==_iff, Bool-cases, Option-cases, Outcome, ok, err, panic, ℕ, String, ◌≡◌, refl, ◌⊎◌, inl,
  inr, Bool, true, false, Option, none, some, List, ◌∷◌,
}
use lohpi.Proto.{Timestamp, Node, Client}
use lohpi.Streaming.{
  StreamResult, finished, failed, reading, ResponseWriter, stream_to_response_writer,
}
use lohpi.LookupService.{dataset_node, dataset_node_exists}
use lohpi.LookupService
use lohpi.Checkout.{checkout_dataset, db_checkout_dataset, to_row}
use lohpi.Checkout
use lohpi.Node.Http.{Settings, get_bearer_token, jwt_token_to_pb_client}
use lohpi.Directory.Http.{
  data_of, ForwardedRequest, Response, HttpReply, delivered, broken_off, unfinished, HttpState,
  HttpResult, streamed_data, data_answered, data_request, data_with_client, at_node, where_stored,
  with_token, directory_get_dataset,
}

-- the client was sent a body
abbrev pub was_sent : {W : Type 0} → HttpReply W → Bool
was_sent (delivered w) = true
was_sent (broken_off w code) = true
was_sent (unfinished w) = true
was_sent _ = false

module _ (lookups : LookupService.Services) (checkouts : Checkout.Services)
    (writer : ResponseWriter) where
  open writer use {Writer}

  -- the row of the checkout of a dataset by a client
  abbrev checkout_row : String → Client → Timestamp → Checkout.Row
  checkout_row dataset_id client now = record {
    dataset_id = dataset_id;
    client_id = client.id;
    client_name = client.name;
    mac_address = client.mac_address;
    email_address = client.email_address;
    date_checkout = checkouts.timestamp_text (some now);
  }

  -- a body that came to its end: the table has taken the row, or the client is told of an error
  abbrev AfterEnd :
      Checkout.Row
      → HttpState lookups checkouts writer
      → Writer
      → HttpResult lookups checkouts writer
      → Type 0
  AfterEnd row s w result =
      ((result.1 ≡ delivered w)
        × (checkouts.table.rows result.0.checked_out.db
            ≡ row ∷ checkouts.table.rows s.checked_out.db))
      ⊎ ((result.1 ≡ broken_off w 500)
          × (checkouts.table.insert s.checked_out.db row ≡ none)
          × (result.0.checked_out.db ≡ s.checked_out.db))

  -- what follows the streaming of a body: a checkout is recorded only where the body came to its end
  abbrev AfterStream :
      Checkout.Row
      → HttpState lookups checkouts writer
      → HttpResult lookups checkouts writer
      → Writer × StreamResult
      → Type 0
  AfterStream row s result (w, finished) = AfterEnd row s w result
  AfterStream row s result (w, failed) =
      (result.1 ≡ broken_off w 500) × (result.0.checked_out ≡ s.checked_out)
  AfterStream row s result (w, reading) =
      (result.1 ≡ unfinished w) × (result.0.checked_out ≡ s.checked_out)

  -- the node of the dataset has answered 200 to the request with the token of the client
  pub record Forwarded (settings : Settings) (ask : ForwardedRequest → Option Response)
      (header : List ℕ) (dataset_id : String) (w : Writer) (s : HttpState lookups checkouts writer)
      (result : HttpResult lookups checkouts writer) : Type 0 where
    pub token : List ℕ
    pub client : Client
    pub node : Node
    pub answer : Response
    pub lookup : LookupService.State lookups
    pub carried : get_bearer_token header ≡ ok token
    pub known : jwt_token_to_pb_client settings token ≡ ok client
    pub exists : dataset_node_exists lookups dataset_id s.lookup ≡ (lookup, ok true)
    pub stored : dataset_node lookups lookup dataset_id ≡ ok (some node)
    pub asked :
        ask (record {
          host = node.https_address;
          port = node.port;
          path = data_of dataset_id;
          token = some token;
        })
        ≡ some answer
    pub accepted : answer.status_code ≡ 200
    pub looked_up : result.0.lookup ≡ lookup
    pub outcome :
        AfterStream
          (checkout_row dataset_id client settings.now)
          s
          result
          (stream_to_response_writer writer answer.body w)

  recorded-AfterEnd :
      (k : String) (client : Client) (now : Timestamp) (s : HttpState lookups checkouts writer)
      (w : Writer)
      → let result = streamed_data lookups checkouts writer k client now s (w, finished) in
        AfterEnd (checkout_row k client now) s w result × (result.0.lookup ≡ s.lookup)
  unfolding checkout_dataset db_checkout_dataset to_row
  recorded-AfterEnd k client now s w =
      elim (Option-cases (checkouts.table.insert s.checked_out.db (checkout_row k client now))) [
        | inl full ↦ rw full (inr (refl, refl, refl), refl)
        | inr (db', e) ↦ rw e (
          inl (
            refl,
            checkouts.table.insert_rows s.checked_out.db (checkout_row k client now) db' e,
          ),
          refl,
        )
      ]

  streamed-AfterStream :
      (k : String) (client : Client) (now : Timestamp) (s : HttpState lookups checkouts writer)
      (x : Writer × StreamResult)
      → let result = streamed_data lookups checkouts writer k client now s x in
        AfterStream (checkout_row k client now) s result x × (result.0.lookup ≡ s.lookup)
  streamed-AfterStream k client now s (w, finished) = recorded-AfterEnd k client now s w
  streamed-AfterStream k client now s (w, failed) = ((refl, refl), refl)
  streamed-AfterStream k client now s (w, reading) = ((refl, refl), refl)

  -- nothing was sent and no checkout was recorded
  abbrev pub Refused :
      HttpState lookups checkouts writer → HttpResult lookups checkouts writer → Type 0
  Refused s result = (was_sent result.1 ≡ false) × (result.0.checked_out ≡ s.checked_out)

  module _ (settings : Settings) (ask : ForwardedRequest → Option Response) (header : List ℕ)
      (k : String) (w : Writer) (s : HttpState lookups checkouts writer) where
    abbrev Decided : HttpResult lookups checkouts writer → Type 0
    Decided result = Refused s result ⊎ Forwarded settings ask header k w s result

    answered-Decided :
        (token : List ℕ) (client : Client) (n : Node) (l : LookupService.State lookups)
        → get_bearer_token header ≡ ok token
        → jwt_token_to_pb_client settings token ≡ ok client
        → dataset_node_exists lookups k s.lookup ≡ (l, ok true)
        → dataset_node lookups l k ≡ ok (some n)
        → (o : Option Response) → ask (data_request lookups checkouts writer k token n) ≡ o
        → Decided (
            data_answered lookups checkouts writer k client settings.now w
              (record s { lookup = l })
              o)
    answered-Decided token client n l carried known there at none asked = inl (refl, refl)
    answered-Decided token client n l carried known there at (some r) asked =
        elim (Bool-cases (r.status_code == 200)) [
          | inr other ↦ inl (rw other (refl, refl))
          | inl good ↦ rw good (
              inr (record {
                token = token;
                client = client;
                node = n;
                answer = r;
                lookup = l;
                carried = carried;
                known = known;
                exists = there;
                stored = at;
                asked = asked;
                accepted = (==_iff r.status_code 200).0 good;
                looked_up =
                    (streamed-AfterStream k client settings.now (record s { lookup = l })
                      (stream_to_response_writer writer r.body w)).1;
                outcome =
                    (streamed-AfterStream k client settings.now (record s { lookup = l })
                      (stream_to_response_writer writer r.body w)).0;
              }))
        ]

    client-Decided :
        (token : List ℕ) (n : Node) (l : LookupService.State lookups)
        → get_bearer_token header ≡ ok token
        → dataset_node_exists lookups k s.lookup ≡ (l, ok true)
        → dataset_node lookups l k ≡ ok (some n)
        → (o : Outcome Client) → jwt_token_to_pb_client settings token ≡ o
        → Decided (
            data_with_client lookups checkouts writer ask k token settings.now w n
              (record s { lookup = l })
              o)
    client-Decided token n l carried there at (ok client) known =
        answered-Decided token client n l carried known there at _ refl
    client-Decided token n l carried there at (err e) known = inl (refl, refl)
    client-Decided token n l carried there at panic known = inl (refl, refl)

    node-Decided :
        (token : List ℕ) (l : LookupService.State lookups)
        → get_bearer_token header ≡ ok token
        → dataset_node_exists lookups k s.lookup ≡ (l, ok true)
        → (o : Outcome (Option Node)) → dataset_node lookups l k ≡ o
        → Decided (
            at_node lookups checkouts writer
              (record s { lookup = l })
              (λ n.
                data_with_client lookups checkouts writer ask k token settings.now w n
                  (record s { lookup = l })
                  (jwt_token_to_pb_client settings token))
              o)
    node-Decided token l carried there (ok (some n)) at =
        client-Decided token n l carried there at _ refl
    node-Decided token l carried there (ok none) at = inl (refl, refl)
    node-Decided token l carried there (err e) at = inl (refl, refl)
    node-Decided token l carried there panic at = inl (refl, refl)

    stored-Decided :
        (token : List ℕ)
        → get_bearer_token header ≡ ok token
        → (x : LookupService.State lookups × Outcome Bool)
        → dataset_node_exists lookups k s.lookup ≡ x
        → Decided (
            where_stored lookups checkouts writer k s
              (λ s' n.
                data_with_client lookups checkouts writer ask k token settings.now w n s'
                  (jwt_token_to_pb_client settings token))
              x)
    stored-Decided token carried (l, ok true) there = node-Decided token l carried there _ refl
    stored-Decided token carried (l, ok false) there = inl (refl, refl)
    stored-Decided token carried (l, err e) there = inl (refl, refl)
    stored-Decided token carried (l, panic) there = inl (refl, refl)

    token-Decided :
        (o : Outcome (List ℕ))
        → get_bearer_token header ≡ o
        → Decided (with_token lookups checkouts writer settings ask k w s o)
    token-Decided (ok token) carried = stored-Decided token carried _ refl
    token-Decided (err e) carried = inl (refl, refl)
    token-Decided panic carried = inl (refl, refl)

  -- The directory server either sends a client no body and records no checkout, or the request has
  -- a token of a known client, the node that the lookup service names for the dataset has answered
  -- 200 to a request with this token, and the body of this answer was streamed. Where it came to
  -- its end and the table has taken a row with the dataset, the client and the time, the client is
  -- sent the body; where the table takes no row, an error comes behind it. A body that does not
  -- come to its end leaves no checkout.
  pub directory_get_dataset-Forwarded :
      (settings : Settings) (ask : ForwardedRequest → Option Response) (header : List ℕ)
      (k : String) (w : Writer) (s : HttpState lookups checkouts writer)
      → let result = directory_get_dataset lookups checkouts writer settings ask header k w s in
        Refused s result ⊎ Forwarded settings ask header k w s result
  unfolding directory_get_dataset
  directory_get_dataset-Forwarded settings ask header k w s =
      token-Decided settings ask header k w s (get_bearer_token header) refl
