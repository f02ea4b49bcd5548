-- ===== src/StateSync.antt =====
-- `SynchronizeDatasets` of core/statesync/syncer.go: the datasets are sent to another part, whose
-- reply names the datasets that have changed. `ask` gives the reply to a message for an address.
pub mod Exchange
mod Tests
use lohpi.Common.{
  if◌then◌else◌, nil_argument, empty_argument, already_running, codec_error, Outcome, ok, err,
  ◌>>=◌, String, Bool, true, false, Option, none, some, List, str_eq,
}
use lohpi.Proto.{Dataset}
use lohpi.Messages.{Message, message_of_type, Channel, signed}

-- `StateSyncUnit`: whether a call is under way, and whether an Ifrit client is registered
pub record StateSyncUnit : Type 0 where
  pub dataset_is_syncing : Bool
  pub has_ifrit_client : Bool

-- `RegisterIfritClient`
unfoldable pub register_ifrit_client : Bool → StateSyncUnit → StateSyncUnit
register_ifrit_client there d = record d { has_ifrit_client = there }

-- `setDatasetIsSyncing`
abbrev pub set_dataset_is_syncing : Bool → StateSyncUnit → StateSyncUnit
set_dataset_is_syncing syncing d = record d { dataset_is_syncing = syncing }

-- the datasets of a reply; a nil map is `none`
abbrev pub Synchronized : Type 0
Synchronized = Outcome (Option (List (String × Dataset)))

module _ (channel : Channel) where
  open channel use {Bytes}

  abbrev pub summary_message : List (String × Dataset) → Message
  summary_message sets = record (message_of_type "MSG_SYNCHRONIZE_DATASET_IDENTIFIERS") {
    dataset_map = some sets;
  }

  -- `sendToRemote`: the bytes that `SendTo` is given
  unfoldable pub send_to_remote : Option Message → StateSyncUnit → Outcome Bytes
  send_to_remote msg d =
      if d.has_ifrit_client
      then (elim msg [ none ↦ err nil_argument | some m ↦ signed channel m ])
      else err nil_argument

  abbrev pub decoded_reply : Option Message → Synchronized
  decoded_reply none = err codec_error
  decoded_reply (some msg) = ok msg.dataset_map

  -- what is done while the flag is set
  abbrev pub exchange :
      (String → Bytes → Bytes)
      → Option (List (String × Dataset))
      → String
      → StateSyncUnit
      → Synchronized
  exchange ask none target d = err nil_argument
  exchange ask (some sets) target d =
      if str_eq target ""
      then err empty_argument
      else send_to_remote (some (summary_message sets)) d >>= λ bytes.
          decoded_reply (channel.unmarshal (ask target bytes))

  -- the flag is reset however the call ends
  abbrev pub reset_after : StateSyncUnit → Synchronized → StateSyncUnit × Synchronized
  reset_after d o = (set_dataset_is_syncing false d, o)

  -- `SynchronizeDatasets`
  unfoldable pub synchronize_datasets :
      (String → Bytes → Bytes)
      → Option (List (String × Dataset))
      → String
      → StateSyncUnit
      → StateSyncUnit × Synchronized
  unfolding send_to_remote
  synchronize_datasets ask sets target d =
      if d.has_ifrit_client
      then (if d.dataset_is_syncing
          then (d, err already_running)
          else (let d' = set_dataset_is_syncing true d in
              reset_after d' (exchange ask sets target d')))
      else (d, err nil_argument)
