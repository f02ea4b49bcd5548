-- ===== src/Directory.antt =====
-- `messageHandler` of core/directoryserver/directoryservercore.go and the state that it changes:
-- the lookup service and the set of invalidated datasets. The maps of the server are lists.
pub mod Revocation
pub mod Resolve
pub mod Http
pub mod Descriptions
mod Tests
use lohpi.Common.{
  if◌then◌else◌, nil_argument, Outcome, ok, err, panic, String, Bool, false, ◌||◌, Option, none,
  some, List, [], ◌∷◌, str_eq,
}
use lohpi.Proto.{Node}
use lohpi.LookupService.{State, insert_dataset_node, remove_dataset_node, dataset_identifiers}
use lohpi.LookupService

-- a message by its type, with the fields that its case reads
pub data Message : Type 0 where
  add_dataset_identifier : String → Option Node → Message
  -- `none` is the nil slice
  resolve_dataset_identifiers : Option (List String) → Option Node → Message
  policy_revocation_update : String → Bool → Message
  unknown_type : Message

-- `_, exists := d.revokedDatasets()[dataset]`
unfoldable pub is_listed : List String → String → Bool
is_listed [] k = false
is_listed (j ∷ ids) k = str_eq j k || is_listed ids k

-- `delete(d.invalidatedDatasets, dataset)`
unfoldable pub remove_revoked_dataset : String → List String → List String
remove_revoked_dataset k [] = []
remove_revoked_dataset k (j ∷ ids) =
    let rest = remove_revoked_dataset k ids in if str_eq j k then rest else j ∷ rest

-- `updateRevocationState`
unfoldable pub update_revocation_state : String → Bool → List String → List String
unfolding is_listed remove_revoked_dataset
update_revocation_state k content revoked =
    if is_listed revoked k
    then (if content then remove_revoked_dataset k revoked else revoked)
    else (if content then revoked else k ∷ revoked)

-- the identifiers that are not among the new ones
unfoldable pub superfluous : List String → List String → List String
unfolding is_listed
superfluous [] ids = []
superfluous (k ∷ current) ids =
    let rest = superfluous current ids in if is_listed ids k then rest else k ∷ rest

module _ (ext : LookupService.Services) where
  pub record DirectoryState : Type 0 where
    pub lookup : State ext
    pub invalidated_datasets : List String

  -- an error is logged, a panic ends the handler
  abbrev pub go_on :
      (State ext → State ext × Outcome (Unit {0}))
      → State ext × Outcome (Unit {0})
      → State ext × Outcome (Unit {0})
  go_on rest (s, panic) = (s, panic)
  go_on rest (s, _) = rest s

  unfoldable pub insert_all : List String → Node → State ext → State ext × Outcome (Unit {0})
  insert_all [] node s = (s, ok tt)
  insert_all (k ∷ ids) node s =
      go_on (insert_all ids node) (insert_dataset_node ext k (some node) s)

  unfoldable pub remove_all : List String → State ext → State ext × Outcome (Unit {0})
  remove_all [] s = (s, ok tt)
  remove_all (k ∷ ids) s = go_on (remove_all ids) (remove_dataset_node ext k s)

  -- `resolveDatasetIdentifiersDeltas`: the identifiers known before are those of all nodes
  unfoldable pub resolve_dataset_identifiers_deltas :
      Option (List String) → Option Node → State ext → State ext × Outcome (Unit {0})
  unfolding insert_all remove_all
  resolve_dataset_identifiers_deltas none _ s = (s, err nil_argument)
  resolve_dataset_identifiers_deltas (some ids) none s = (s, err nil_argument)
  resolve_dataset_identifiers_deltas (some ids) (some node) s =
      let current = dataset_identifiers ext s in
      go_on (remove_all (superfluous current ids)) (insert_all ids node s)

  abbrev pub with_lookup :
      DirectoryState → State ext × Outcome (Unit {0}) → DirectoryState × Outcome (Unit {0})
  with_lookup d (s, o) = (record d { lookup = s }, o)

  -- `messageHandler`, after the message is decoded
  unfoldable pub message_handler : Message → DirectoryState → DirectoryState × Outcome (Unit {0})
  unfolding update_revocation_state resolve_dataset_identifiers_deltas
  message_handler (add_dataset_identifier k node) d =
      with_lookup d (insert_dataset_node ext k node d.lookup)
  message_handler (resolve_dataset_identifiers ids node) d =
      with_lookup d (resolve_dataset_identifiers_deltas ids node d.lookup)
  message_handler (policy_revocation_update k content) d = (
    record d { invalidated_datasets = update_revocation_state k content d.invalidated_datasets },
    ok tt,
  )
  message_handler unknown_type d = (d, ok tt)

  -- the states after a list of messages, each handled on its own
  unfoldable pub handle_all : List Message → DirectoryState → DirectoryState
  unfolding message_handler
  handle_all [] d = d
  handle_all (msg ∷ messages) d = handle_all messages (message_handler msg d).0
