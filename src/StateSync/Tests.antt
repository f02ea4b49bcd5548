-- ===== src/StateSync/Tests.antt =====
-- A unit whose peer replies with one dataset.
use lohpi.Common.{ok, ℕ, String, ◌≡◌, refl, inl, true, false, some, List, [], ◌∷◌}
use lohpi.Proto.{Dataset, empty_policy}
use lohpi.Messages.{Message, message_of_type}
use lohpi.Messages.Memory.{plain_channel, plain_channel-IsAnswering}
use lohpi.StateSync.{StateSyncUnit, synchronize_datasets}
use lohpi.StateSync.Exchange.{synchronize_datasets_lem}

abbrev ready : StateSyncUnit
ready = record { dataset_is_syncing = false; has_ifrit_client = true }

abbrev one_dataset : List (String × Dataset)
one_dataset =
    ("d", record { identifier = "d"; policy = some empty_policy; allow_multiple_checkouts = false })
    ∷ []

abbrev changed : Message
changed = record (message_of_type "") { dataset_map = some one_dataset }

reply_changed : plain_channel.Bytes
unfolding plain_channel
reply_changed = inl changed

reply_changed-unmarshal : plain_channel.unmarshal reply_changed ≡ some changed
unfolding plain_channel reply_changed
reply_changed-unmarshal = refl

synchronize_datasets_example :
    (bytes : plain_channel.Bytes) × (rs : List ℕ × List ℕ) × (plain_channel.unmarshal bytes
      ≡ some (record (message_of_type "MSG_SYNCHRONIZE_DATASET_IDENTIFIERS") {
        dataset_map = some one_dataset;
        signature = some rs;
      }))
    × (synchronize_datasets plain_channel (λ target b. reply_changed) (some one_dataset) "ps" ready
        ≡ (ready, ok changed.dataset_map))
synchronize_datasets_example =
    synchronize_datasets_lem plain_channel plain_channel-IsAnswering (λ target b. reply_changed)
      one_dataset "ps" ready (λ bytes. changed) refl refl refl (λ bytes. reply_changed-unmarshal)
