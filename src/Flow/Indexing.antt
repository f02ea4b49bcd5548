-- ===== src/Flow/Indexing.antt =====
-- `IndexDataset` of a node, answered by `messageHandler` of the policy store.
use lohpi.Common.{codes, Outcome, ok, String, ◌≡◌, false, none, some, [], str_eq}
use lohpi.Proto.{Dataset, Node}
use lohpi.Messages.{Channel}
use lohpi.Indexer.{to_row}
use lohpi.Indexer
use lohpi.Indexer.Uncached.{uncached}
use lohpi.LookupService.{insert_dataset_node}
use lohpi.LookupService
use lohpi.PolicyStore.Git.{Files}
use lohpi.PolicyStore.SetPolicy.{StoreState}
use lohpi.PolicyStore.Request.{Clock, make_dataset}
use lohpi.PolicyStore.Core.{message_handler}

module _ (channel : Channel) where
  -- what the sender of a message reads: nothing, if the handler fails
  abbrev pub reply_of : Outcome channel.Bytes → channel.Bytes
  reply_of (ok bytes) = bytes
  reply_of _ = channel.of_text []

module _ (indexer : Indexer.Services) (lookups : LookupService.Services) (files : Files)
    (as_bytes : String → indexer.Bytes) (channel : Channel) (store me : Node) where
  open indexer use {table}

  -- what the policy store in a state replies to a message
  abbrev pub ask_in : Clock → StoreState indexer lookups files → channel.Bytes → channel.Bytes
  ask_in clock s bytes =
      reply_of channel
        (message_handler indexer lookups files as_bytes channel store bytes clock s).1

  -- the services of the policy store answer for a dataset that its table does not have
  pub record IsUnknown (k : String) (clock : Clock) (s : StoreState indexer lookups files)
      : Type 0 where
    pub db : table.Db
    pub l : LookupService.State lookups
    pub fs : files.Fs
    pub d : Dataset
    pub held : s.datasets ≡ uncached indexer db
    pub missing : table.row db k ≡ none
    pub named : str_eq k "" ≡ false
    pub made : make_dataset indexer lookups files k (codes me.name) clock s.work_tree ≡ (fs, ok d)
    pub looked : insert_dataset_node lookups k (some me) s.lookup ≡ (l, ok tt)
