-- ===== src/Flow/Tests.antt =====
-- A node and a policy store over services in memory.
use lohpi.Common.{
  if◌then◌else◌, codes, Outcome, String, ◌≡◌, refl, inl, true, Option, none, some, [], str_eq,
}
use lohpi.Node.Index.Rows.{Told, replied_row, index_dataset_keeps_row}
use lohpi.Extern.{keep_old}
use lohpi.Proto.{Timestamp, Policy, Dataset, Node}
use lohpi.Extern.Memory.{memory_table, memory_redis}
use lohpi.Messages.{Message, message_of_type}
use lohpi.Messages.Memory.{plain_channel, plain_channel-IsAnswering}
use lohpi.Indexer.Uncached.{uncached}
use lohpi.LookupService.Refinement
use lohpi.LookupService.{insert_dataset_node, State}
use lohpi.PolicyStore.Git.{replace_slashes, same_text, parse_bool}
use lohpi.PolicyStore.Memory.{write_in, texts_in, indexer, lookups, InsertAnswers-indexer}
use lohpi.PolicyStore.SetPolicy.{StoreState}
use lohpi.PolicyStore.Request.{Clock, unversioned_policy, dataset_with_policy, make_dataset}
use lohpi.PolicyStore.Request.Content.{kept_content}
use lohpi.Node.Messaging.{IfritState}
use lohpi.Node.Index.{index_dataset}

abbrev noon : Timestamp
noon = record { seconds = 12; nanos = 5 }

abbrev me : Node
me = record {
  name = "n";
  ifrit_address = "10.0.0.1:5000";
  id = [];
  https_address = "10.0.0.1";
  port = 9000;
  boot_time = some noon;
}

abbrev store_node : Node
store_node = record me { name = ""; ifrit_address = "10.0.0.2:5000" }

abbrev clock : Clock
clock = (noon, noon)

no_rows : indexer.table.Db
unfolding memory_table
no_rows = []

empty_store : StoreState indexer lookups texts_in
unfolding memory_table memory_redis texts_in no_rows
empty_store = record {
  datasets = uncached indexer no_rows;
  lookup = record { cache = none; db = [] };
  work_tree = write_in (λ q. none) (codes "n/d") (codes "true");
  policy_chan = [];
}

abbrev new_policy : Policy
new_policy = unversioned_policy "d" true clock

abbrev restored_dataset : Dataset
restored_dataset = dataset_with_policy "d" new_policy

-- the store has no row for the dataset, but a file, which grants access
abbrev made : texts_in.Fs × Outcome Dataset
made = make_dataset indexer lookups texts_in "d" (codes "n") clock empty_store.work_tree

abbrev looked : State lookups × Outcome (Unit {0})
looked = insert_dataset_node lookups "d" (some me) empty_store.lookup

abbrev request : Message
request = record (message_of_type "MSG_TYPE_GET_DATASET_POLICY") {
  sender = some me;
  policy_request = some "d";
}

-- Git has the content `true`
content_in_git : kept_content texts_in (codes "n") (codes "d") empty_store.work_tree ≡ true
unfolding texts_in empty_store replace_slashes same_text parse_bool
content_in_git = refl

no_nodes : String → Option Node
no_nodes k = none

abbrev quiet : IfritState plain_channel me
quiet = record { gossip_content = none; sent = [] }

reply_with_policy : plain_channel.Bytes
unfolding plain_channel
reply_with_policy = inl (record (message_of_type "") { policy = some new_policy })

abbrev reply : Message
reply = record (message_of_type "") { policy = some new_policy }

is_replied : plain_channel.unmarshal reply_with_policy ≡ some reply
unfolding plain_channel reply_with_policy
is_replied = refl

index_dataset_keeps_row_example :
    let result =
      index_dataset indexer plain_channel me
        (λ bytes. reply_with_policy)
        "10.0.0.3:5000"
        "d"
        true
        quiet
        (uncached indexer no_rows) in
    (db' : indexer.table.Db) × (result.0 ≡ uncached indexer db')
    × Told plain_channel me "10.0.0.3:5000" "d" quiet result.1
    × ((j : String)
        → indexer.table.row db' j ≡ (
            if str_eq "d" j
            then keep_old
                (replied_row indexer plain_channel me true (some new_policy))
                (indexer.table.row no_rows "d")
            else indexer.table.row no_rows j))
index_dataset_keeps_row_example =
    index_dataset_keeps_row indexer plain_channel me InsertAnswers-indexer plain_channel-IsAnswering
      (λ bytes. reply_with_policy) "10.0.0.3:5000" "d" true quiet no_rows reply
      (λ bytes rs h. is_replied)
