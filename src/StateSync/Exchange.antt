-- ===== src/StateSync/Exchange.antt =====
-- What `SynchronizeDatasets` returns, and that it leaves the unit as it was.
use lohpi.Common.{ok, ℕ, String, ◌≡◌, refl, true, false, some, List, str_eq}
use lohpi.Proto.{Dataset}
use lohpi.Messages.{Message, message_of_type, nil_if_empty, Channel}
use lohpi.Messages.Answering.{IsAnswering, signed_lem}
use lohpi.StateSync.{StateSyncUnit, summary_message, send_to_remote, synchronize_datasets}

module _ (channel : Channel) where
  -- Where a client is registered, no call is under way, an address is given and the wire answers,
  -- `SynchronizeDatasets` sends a message that decodes as the datasets under the type of a
  -- synchronisation, with nil for no datasets, and returns the datasets of the message that the
  -- reply decodes as; the unit is left as it was.
  pub synchronize_datasets_lem :
      IsAnswering channel
      → (ask : String → channel.Bytes → channel.Bytes) (sets : List (String × Dataset))
        (target : String) (d : StateSyncUnit) (reply : channel.Bytes → Message)
      → d.has_ifrit_client ≡ true
      → d.dataset_is_syncing ≡ false
      → str_eq target "" ≡ false
      → ((bytes : channel.Bytes) → channel.unmarshal (ask target bytes) ≡ some (reply bytes))
      → (bytes : channel.Bytes) × (rs : List ℕ × List ℕ) × (channel.unmarshal bytes
          ≡ some (record (message_of_type "MSG_SYNCHRONIZE_DATASET_IDENTIFIERS") {
            dataset_map = nil_if_empty (some sets);
            signature = some rs;
          }))
        × (synchronize_datasets channel ask (some sets) target d
            ≡ (d, ok (reply bytes).dataset_map))
  unfolding synchronize_datasets send_to_remote
  synchronize_datasets_lem answering ask sets target d reply has free named replied =
      let (bytes, rs, sent, got) = signed_lem channel answering (summary_message channel sets) in
      (bytes, rs, got, rw (has, free, named, sent, replied bytes) refl)
