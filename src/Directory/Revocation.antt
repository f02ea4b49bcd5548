-- ===== src/Directory/Revocation.antt =====
-- Which datasets count as invalidated.
use lohpi.Common.{
  if◌then◌else◌, String, ◌≡◌, refl, ap, ◌∙◌, Bool, true, false, not, List, [], ◌∷◌, arith, str_eq,
  eq_iff,
}
use lohpi.LookupService
use lohpi.Directory.{
  Message, add_dataset_identifier, resolve_dataset_identifiers, policy_revocation_update,
  unknown_type, is_listed, remove_revoked_dataset, update_revocation_state, DirectoryState,
  message_handler, handle_all,
}

-- what the last revocation update for `k` says, if there is one
abbrev pub last_update : String → List Message → Bool → Bool
last_update k [] b = b
last_update k (policy_revocation_update j content ∷ messages) b =
    last_update k messages (if str_eq j k then not content else b)
last_update k (_ ∷ messages) b = last_update k messages b

is_listed-remove :
    (k j : String) (ids : List String)
    → is_listed (remove_revoked_dataset k ids) j ≡ (if str_eq k j then false else is_listed ids j)
unfolding is_listed remove_revoked_dataset
is_listed-remove k j [] = ground arith
is_listed-remove k j (i ∷ ids) =
    ground (arith, eq_iff k j, eq_iff i k, eq_iff i j, is_listed-remove k j ids)

is_listed-same :
    (k j : String) (ids : List String) → str_eq k j ≡ true → is_listed ids k ≡ is_listed ids j
is_listed-same k j ids same = ap (is_listed ids) ((eq_iff k j).0 same)

is_listed-update :
    (k j : String) (content : Bool) (ids : List String)
    → is_listed (update_revocation_state k content ids) j
      ≡ (if str_eq k j then not content else is_listed ids j)
unfolding update_revocation_state is_listed
is_listed-update k j content ids = ground (arith, is_listed-remove k j ids, is_listed-same k j ids)

-- Once a list of messages is handled, whatever their order and however often they come, a dataset
-- is invalidated exactly where the last revocation update for it says so; where there is none, it is
-- as it was before.
pub is_listed-handle_all :
    (ext : LookupService.Services) (messages : List Message) (d : DirectoryState ext) (k : String)
    → is_listed (handle_all ext messages d).invalidated_datasets k
      ≡ last_update k messages (is_listed d.invalidated_datasets k)
unfolding handle_all message_handler
is_listed-handle_all ext [] d k = refl
is_listed-handle_all ext (add_dataset_identifier j n ∷ messages) d k =
    is_listed-handle_all ext messages _ k
is_listed-handle_all ext (resolve_dataset_identifiers ids n ∷ messages) d k =
    is_listed-handle_all ext messages _ k
is_listed-handle_all ext (policy_revocation_update j content ∷ messages) d k =
    is_listed-handle_all ext messages _ k
    ∙ ap (last_update k messages) (is_listed-update j k content d.invalidated_datasets)
is_listed-handle_all ext (unknown_type ∷ messages) d k = is_listed-handle_all ext messages d k
