-- ===== src/Directory/Descriptions/Stored.antt =====
-- What `setProjectDescription` has stored: the description that `getProjectDescription` shows.
use lohpi.Common.{ok, String, ◌≡◌, ◌≢◌, ◌⊎◌, true, false, Option, none, some, str_eq}
use lohpi.Extern.{Table}
use lohpi.LookupService.{Services, dataset_node_exists}
use lohpi.LookupService
use lohpi.Directory.Descriptions.{
  accepted, Answers, DescriptionState, Result, encoded, get_project_description,
}

module _ (lookups : LookupService.Services) (table : Table (Option String)) (ans : Answers) where
  open ans use {Bytes, encode}

  -- a state of a server whose lookup service has no cache
  abbrev pub no_cache : lookups.table.Db → table.Db → DescriptionState lookups table ans
  no_cache l db = record { lookup = record { cache = none; db = l }; descriptions = db }

  -- the handler has answered with an error and changed nothing
  abbrev pub Unchanged : DescriptionState lookups table ans → Result lookups table ans → Type 0
  Unchanged s r = (r.0 ≡ s) × (r.1 ≢ accepted)

  -- the description is read back, and no other row has changed
  abbrev pub ReadBack :
      String → String → DescriptionState lookups table ans → Result lookups table ans → Type 0
  ReadBack text k s r =
      (r.1 ≡ accepted)
      × (get_project_description lookups table ans k r.0
          ≡ (r.0, encoded lookups table ans (encode text)))
      × ((j : String)
          → str_eq k j ≡ false
          → table.row r.0.descriptions j ≡ table.row s.descriptions j)

  -- why a description was not stored: the dataset is not known, or the table does not answer
  abbrev pub Prevented : String → String → lookups.table.Db → table.Db → Type 0
  Prevented text k l db =
      ((dataset_node_exists lookups k (record { cache = none; db = l })).1 ≢ ok true)
      ⊎ (table.upsert db k (some text) ≡ none)

  abbrev pub Stored :
      String → String → lookups.table.Db → table.Db → Result lookups table ans → Type 0
  Stored text k l db r =
      (Prevented text k l db × Unchanged (no_cache l db) r) ⊎ ReadBack text k (no_cache l db) r
