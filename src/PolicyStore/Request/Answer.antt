-- ===== src/PolicyStore/Request/Answer.antt =====
-- What a node is answered for a dataset that the indexer of the policy store does not have.
use lohpi.Common.{codes, ok, ℕ, String, ◌≡◌, refl, ap, ◌∙◌, Bool, false, none, some, List, str_eq}
use lohpi.PolicyStore.SetPolicy.{StoreState}
use lohpi.Indexer.Inserted.{
  InsertAnswers, DatesReadable, insert_dataset-uncached, dataset-uncached, dataset_exists-uncached,
}
use lohpi.Proto.{Policy, Dataset, Node}
use lohpi.Messages.Answering.{IsAnswering, signed_lem}
use lohpi.Messages.{Message, message_of_type, requested, sender_name, Channel}
use lohpi.Indexer.{State, dataset, row_policy, to_row}
use lohpi.Indexer
use lohpi.Indexer.Uncached.{IsReliable, uncached}
use lohpi.LookupService.{insert_dataset_node}
use lohpi.LookupService
use lohpi.PolicyStore.Git.{Files}
use lohpi.PolicyStore.Request.{
  Clock, unversioned_policy, dataset_with_policy, make_dataset, answer_policy,
  marshal_dataset_policy, StoreResult, registered, process_storage_node_policy_request,
}
use lohpi.PolicyStore.Request.Content.{kept_content, make_dataset-IsUnversioned}

module _ (indexer : Indexer.Services) (lookups : LookupService.Services) (files : Files) where
  open indexer use {table}

  module _ (channel : Channel) (me : Node) where
    -- the reply decodes as a signed message of the policy store with this policy
    abbrev pub Carries : channel.Bytes → Policy → Type 0
    Carries bytes p =
        (rs : List ℕ × List ℕ) × (channel.unmarshal bytes
          ≡ some (record (message_of_type "") {
            sender = some me;
            policy = some p;
            signature = some rs;
          }))

    pub answer_policy-Carries :
        IsAnswering channel
        → (p : Policy)
        → (bytes : channel.Bytes) × (answer_policy indexer lookups files channel me (some p)
            ≡ ok bytes)
          × Carries bytes p
    answer_policy-Carries signs p =
        let (bytes, rs, e, read) =
          signed_lem channel signs
            (record (message_of_type "") { sender = some me; policy = some p }) in
        (bytes, e, (rs, read))

    open files use {Fs}

    -- the result of a request that registers the sender and answers with a policy
    abbrev pub Answered :
        StoreState indexer lookups files
        → LookupService.State lookups
        → Fs
        → (Policy → Type 0)
        → StoreResult indexer lookups files channel me
        → Type 0
    Answered s l fs P result =
        (db' : table.Db) × (bytes : channel.Bytes) × (p : Policy) × (result
          ≡ (record s { datasets = uncached indexer db'; lookup = l; work_tree = fs }, ok bytes))
        × Carries bytes p
        × P p

    registered_lem :
        IsReliable indexer
        → IsAnswering channel
        → (k : String) (clock : Clock) (content : Bool) (s : StoreState indexer lookups files)
          (l : LookupService.State lookups) (db : table.Db)
        → DatesReadable indexer
        → s.datasets ≡ uncached indexer db
        → str_eq k "" ≡ false
        → table.row db k
          ≡ some (to_row indexer (dataset_with_policy k (unversioned_policy k content clock)))
        → (bytes : channel.Bytes) × (p : Policy) × (registered indexer lookups files channel me k s
              (l, ok tt)
            ≡ (record s { lookup = l }, ok bytes))
          × Carries bytes p
          × (p.content ≡ content)
          × (p.version ≡ 0)
    unfolding marshal_dataset_policy to_row unversioned_policy
    registered_lem reliable signs k clock content s l db dates e named row =
        let r = to_row indexer (dataset_with_policy k (unversioned_policy k content clock)) in
        let (created, applied, read) =
          dataset-uncached indexer reliable db k r named row (dates clock.0, dates clock.1) in
        let p = row_policy k r created applied in
        let (bytes, sent, carries) = answer_policy-Carries signs p in
        (bytes, p, rw (e, read, sent) refl, carries, refl, refl)

    -- A node asks for the policy of a dataset that the table of the policy store does not have,
    -- and Git, the database and the wire answer. The node is registered as the lookup service
    -- registers it, and is answered a policy of version 0 with the content that Git has for the
    -- node and the dataset, or `false` where Git has none.
    pub process_storage_node_policy_request-Answered :
        IsReliable indexer
        → InsertAnswers indexer
        → DatesReadable indexer
        → IsAnswering channel
        → (msg : Message) (clock : Clock) (s : StoreState indexer lookups files) (db : table.Db)
          (l : LookupService.State lookups) (fs : Fs) (d : Dataset)
        → s.datasets ≡ uncached indexer db
        → table.row db (requested msg) ≡ none
        → str_eq (requested msg) "" ≡ false
        → make_dataset indexer lookups files
            (requested msg)
            (codes (sender_name msg.sender))
            clock
            s.work_tree
          ≡ (fs, ok d)
        → insert_dataset_node lookups (requested msg) msg.sender s.lookup ≡ (l, ok tt)
        → Answered s l fs
            (λ p.
              (p.content
                ≡ kept_content files
                    (codes (sender_name msg.sender))
                    (codes (requested msg))
                    s.work_tree)
              × (p.version ≡ 0))
            (process_storage_node_policy_request indexer lookups files channel me msg clock s)
    unfolding process_storage_node_policy_request
    process_storage_node_policy_request-Answered reliable inserts dates signs msg clock s db l fs d
          e gone named made looked =
        let k = requested msg in
        let (content, in_git, shape) =
          make_dataset-IsUnversioned indexer lookups files k (codes (sender_name msg.sender)) clock
            s.work_tree fs d made in
        let (db', put, row) = insert_dataset-uncached indexer inserts db k d gone in
        let s' : StoreState indexer lookups files = record s {
          datasets = uncached indexer db';
          work_tree = fs;
        } in
        let (bytes, p, replied, carries, same, zero_version) =
          registered_lem reliable signs k clock content s' l db' dates refl named
            (row ∙ ap (λ x. some (to_row indexer x)) shape) in
        (
          db',
          bytes,
          p,
          rw (e, dataset_exists-uncached indexer db k gone, made, put, looked, replied) refl,
          carries,
          (same ∙ in_git, zero_version),
        )
