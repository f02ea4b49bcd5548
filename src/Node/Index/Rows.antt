-- ===== src/Node/Index/Rows.antt =====
-- What `IndexDataset` leaves in the table of a node without a cache.
use lohpi.Common.{
  if◌then◌else◌, Outcome, ok, ℕ, String, ◌≡◌, refl, Bool, false, Option, none, some, List, [], ◌∷◌,
  ◌++◌, str_eq,
}
use lohpi.Proto.{Policy, Node}
use lohpi.Extern.{keep_old}
use lohpi.Indexer.{Row, Services, to_row}
use lohpi.Indexer.Uncached.{uncached, dataset_exists_lem}
use lohpi.Indexer.Inserted.{InsertAnswers, insert_dataset-rows}
use lohpi.Messages.{Message, message_of_type, Channel}
use lohpi.Messages.Answering.{IsAnswering, marshalled, add_message_signature_lem, signed_lem}
use lohpi.Node.Messaging.{
  IfritState, policy_request_message, policy_request_bytes, policy_of_reply,
  send_policy_store_policy_request, identifier_message, sent_signed, send_dataset_identifier,
}
use lohpi.Node.Index.{indexed_dataset, index_dataset}

module _ (channel : Channel) (me : Node) where
  -- one message was sent, to this recipient, and nothing else has changed: it decodes as the
  -- announcement of the dataset by this node, with a signature
  abbrev pub Told :
      String → String → IfritState channel me → IfritState channel me × Outcome (Unit {0}) → Type 0
  Told recipient k i result =
      (bytes : channel.Bytes) × (rs : List ℕ × List ℕ) × (result
        ≡ (record i { sent = i.sent ++ (recipient, bytes) ∷ [] }, ok tt))
      × (channel.unmarshal bytes
          ≡ some (record (message_of_type "MSG_TYPE_ADD_DATASET_IDENTIFIER") {
            sender = some me;
            string_value = k;
            signature = some rs;
          }))

  send_dataset_identifier-Told :
      IsAnswering channel
      → (recipient k : String) (i : IfritState channel me)
      → Told recipient k i (send_dataset_identifier channel me k recipient i)
  unfolding send_dataset_identifier
  send_dataset_identifier-Told answering recipient k i =
      let (bytes, rs, e, got) = signed_lem channel answering (identifier_message channel me k) in
      (bytes, rs, rw (send_dataset_identifier, sent_signed, e) refl, got)

  -- the request for a policy, as it is received
  abbrev request_message : String → List ℕ × List ℕ → Message
  request_message k rs = record (message_of_type "MSG_TYPE_GET_DATASET_POLICY") {
    sender = some me;
    policy_request = some k;
    signature = some rs;
  }

  pub policy_request_bytes_lem :
      IsAnswering channel
      → (k : String)
      → (bytes : channel.Bytes) × (rs : List ℕ × List ℕ) × (policy_request_bytes channel me k
          ≡ ok bytes)
        × (channel.unmarshal bytes ≡ some (request_message k rs))
  unfolding policy_request_bytes
  policy_request_bytes_lem answering k =
      let msg = policy_request_message channel me k in
      let (rs, s) = add_message_signature_lem channel answering msg in
      let (bytes, e, got) = marshalled channel answering (record msg { signature = some rs }) in
      (bytes, rs, rw (s, e) refl, got)

  -- the policy of the message that the policy store replies to the request
  send_policy_store_policy_request_lem :
      IsAnswering channel
      → (ask : channel.Bytes → channel.Bytes) (k : String) (reply : Message)
      → ((bytes : channel.Bytes) (rs : List ℕ × List ℕ)
          → channel.unmarshal bytes ≡ some (request_message k rs)
          → channel.unmarshal (ask bytes) ≡ some reply)
      → send_policy_store_policy_request channel me ask k ≡ ok reply.policy
  unfolding send_policy_store_policy_request policy_of_reply
  send_policy_store_policy_request_lem answering ask k reply replied =
      let (bytes, rs, sent, got) = policy_request_bytes_lem answering k in
      rw (sent, replied bytes rs got) refl

module _ (ext : Services) (channel : Channel) (me : Node) where
  open ext use {table, timestamp_text}

  -- the row of a dataset with the policy that was replied
  abbrev pub replied_row : Bool → Option Policy → Row
  replied_row allow none = record {
    allow_multiple_checkout = allow;
    policy_content = false;
    policy_version = 0;
    date_created = timestamp_text none;
    date_applied = timestamp_text none;
  }
  replied_row allow (some p) = record {
    allow_multiple_checkout = allow;
    policy_content = p.content;
    policy_version = p.version;
    date_created = timestamp_text p.date_created;
    date_applied = timestamp_text p.date_applied;
  }

  replied_row_lem :
      (k : String) (allow : Bool) (p : Option Policy)
      → to_row ext (indexed_dataset k allow p) ≡ replied_row allow p
  unfolding to_row
  replied_row_lem k allow none = refl
  replied_row_lem k allow (some p) = refl

  pub index_dataset-rows :
      InsertAnswers ext
      → IsAnswering channel
      → (ask : channel.Bytes → channel.Bytes) (directory_ip k : String) (allow : Bool)
        (i : IfritState channel me) (db : table.Db) (p : Option Policy)
      → send_policy_store_policy_request channel me ask k ≡ ok p
      → let result = index_dataset ext channel me ask directory_ip k allow i (uncached ext db) in
        (db' : table.Db) × (result.0 ≡ uncached ext db')
        × Told channel me directory_ip k i result.1
        × ((j : String)
            → table.row db' j ≡ (
                if str_eq k j
                then keep_old (replied_row allow p) (table.row db k)
                else table.row db j))
  unfolding index_dataset
  index_dataset-rows answers answering ask directory_ip k allow i db p replied =
      let (db', put, rows) = insert_dataset-rows ext answers db k (indexed_dataset k allow p) in
      (
        db',
        rw (dataset_exists_lem ext db k, replied, put) refl,
        rw (dataset_exists_lem ext db k, replied, put)
            (send_dataset_identifier-Told channel me answering directory_ip k i),
        λ j. rw (← (replied_row_lem k allow p)) (rows j),
      )

  -- Where the policy store replies with a message to the request of this node for the policy of a
  -- dataset, the database takes rows and the wire answers, `IndexDataset` of a node without a cache
  -- returns without an error and sends one message, to the directory server: it decodes as the
  -- announcement of the dataset by this node. The row of the dataset is the one that the table had,
  -- or one with the content, the version and the dates of the policy of the reply if it had none;
  -- no other row changes.
  pub index_dataset_keeps_row :
      InsertAnswers ext
      → IsAnswering channel
      → (ask : channel.Bytes → channel.Bytes) (directory_ip k : String) (allow : Bool)
        (i : IfritState channel me) (db : table.Db) (reply : Message)
      → ((bytes : channel.Bytes) (rs : List ℕ × List ℕ)
          → channel.unmarshal bytes ≡ some (request_message channel me k rs)
          → channel.unmarshal (ask bytes) ≡ some reply)
      → let result = index_dataset ext channel me ask directory_ip k allow i (uncached ext db) in
        (db' : table.Db) × (result.0 ≡ uncached ext db')
        × Told channel me directory_ip k i result.1
        × ((j : String)
            → table.row db' j ≡ (
                if str_eq k j
                then keep_old (replied_row allow reply.policy) (table.row db k)
                else table.row db j))
  index_dataset_keeps_row answers answering ask directory_ip k allow i db reply replied =
      index_dataset-rows answers answering ask directory_ip k allow i db reply.policy
        (send_policy_store_policy_request_lem channel me answering ask k reply replied)
