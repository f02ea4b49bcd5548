-- ===== src/Directory/Descriptions.antt =====
-- `setProjectDescription` and `getProjectDescription` of core/directoryserver/http.go, over the
-- table of core/directoryserver/database.go. A row of the table is the description, or NULL.
pub mod Stored
mod Tests
use lohpi.Common.{
  if◌then◌else◌, Outcome, ok, ℕ, String, Bool, true, false, Option, none, some, str_eq,
}
use lohpi.Extern.{Table}
use lohpi.Streaming.Json.{JsonRequest, JsonResult, parsed, decode_json_body}
use lohpi.LookupService.{dataset_node_exists}
use lohpi.LookupService

-- what the client is sent; an answer that it does not take is cut off
pub data DescriptionReply (Bytes : Type 0) : Type 0 where
  accepted crashed_request : DescriptionReply Bytes
  refused : ℕ → DescriptionReply Bytes
  shown cut_off : Bytes → DescriptionReply Bytes

-- the encoder of JSON, and whether a client takes an answer
pub record Answers : Type 1 where
  pub Bytes : Type 0
  pub encode : String → Option Bytes
  pub takes : Bytes → Bool

-- the text of a NULL is empty, and so is that of no row
abbrev pub scanned : Option (Option String) → String
scanned (some (some text)) = text
scanned _ = ""

module _ (lookups : LookupService.Services) (table : Table (Option String)) (ans : Answers) where
  open ans use {Bytes, encode, takes}

  pub record DescriptionState : Type 0 where
    pub lookup : LookupService.State lookups
    pub descriptions : table.Db

  abbrev pub Result : Type 0
  Result = DescriptionState × DescriptionReply Bytes

  -- `dbInsertDataset`: a row that is there stays as it is
  unfoldable pub register_dataset : String → table.Db → Option table.Db
  register_dataset dataset_id db = table.insert db dataset_id none

  -- `updateProjectDescription`
  unfoldable pub update_project_description : String → String → table.Db → Option table.Db
  update_project_description dataset_id text db = table.upsert db dataset_id (some text)

  -- `getProjectDescriptionDB`
  unfoldable pub project_description : table.Db → String → Option String
  project_description db dataset_id = elim (table.select db dataset_id) [
    | none ↦ none
    | some r ↦ some (scanned r)
  ]

  abbrev pub if_known :
      DescriptionState
      → (DescriptionState → Result)
      → LookupService.State lookups × Outcome Bool
      → Result
  if_known s next (l, ok true) = next (record s { lookup = l })
  if_known s next (l, ok false) = (record s { lookup = l }, refused 404)
  if_known s next (l, _) = (record s { lookup = l }, crashed_request)

  abbrev pub updated : DescriptionState → Option table.Db → Result
  updated s none = (s, crashed_request)
  updated s (some db') = (record s { descriptions = db' }, accepted)

  -- a body that is not read makes the handler panic
  abbrev pub after_decoding : String → DescriptionState → JsonResult String → Result
  after_decoding dataset_id s (parsed text) =
      if_known s (λ s'. updated s' (update_project_description dataset_id text s'.descriptions))
        (dataset_node_exists lookups dataset_id s.lookup)
  after_decoding dataset_id s _ = (s, crashed_request)

  -- the handler `setProjectDescription`
  unfoldable pub set_project_description : JsonRequest String → String → DescriptionState → Result
  unfolding update_project_description
  set_project_description request dataset_id s =
      after_decoding dataset_id s (decode_json_body "application/json" request)

  abbrev pub encoded : Option Bytes → DescriptionReply Bytes
  encoded none = refused 500
  encoded (some b) = if takes b then shown b else cut_off b

  abbrev pub described : DescriptionState → Option String → Result
  described s none = (s, crashed_request)
  described s (some text) = (s, encoded (encode text))

  -- the handler `getProjectDescription`
  unfoldable pub get_project_description : String → DescriptionState → Result
  unfolding project_description
  get_project_description dataset_id s =
      if str_eq dataset_id ""
      then (s, refused 400)
      else if_known s (λ s'. described s' (project_description s'.descriptions dataset_id))
          (dataset_node_exists lookups dataset_id s.lookup)
