-- ===== src/Directory/Descriptions/Tests.antt =====
-- A directory server that has the description of a dataset.
use lohpi.Common.{String, ◌≡◌, refl, inl, true, Option, some, [], ◌∷◌}
use lohpi.Extern.{Table}
use lohpi.Extern.Memory.{memory_table}
use lohpi.Streaming.Json.{at_end, JsonRequest, decode_json_body}
use lohpi.LookupService.{db_dataset_node_exists, dataset_node_exists}
use lohpi.PolicyStore.Memory.{some_date, lookups}
use lohpi.Directory.Descriptions.{
  accepted, Answers, Result, update_project_description, set_project_description,
}
use lohpi.Directory.Descriptions.Stored.{no_cache, Stored}

-- a client that takes every answer
plain : Answers
plain = record { Bytes = String; encode = λ text. some text; takes = λ b. true }

descriptions_in_memory : Table (Option String)
descriptions_in_memory = memory_table (Option String)

one_dataset : lookups.table.Db
unfolding memory_table
one_dataset =
    (
      "d",
      record {
        node_id = "n";
        ip_address = "";
        public_id = [];
        https_address = "10.0.0.1";
        port = 9000;
        boottime = some_date;
      },
    )
    ∷ []

no_descriptions : descriptions_in_memory.Db
unfolding descriptions_in_memory memory_table
no_descriptions = []

abbrev request : JsonRequest String
request = record { content_type = "application/json"; first = inl "Cohort 7"; second = at_end }

abbrev result : Result lookups descriptions_in_memory plain
result =
    set_project_description lookups descriptions_in_memory plain request "d"
      (no_cache lookups descriptions_in_memory plain one_dataset no_descriptions)

-- the description is accepted
is_accepted : result.1 ≡ accepted
unfolding set_project_description decode_json_body dataset_node_exists db_dataset_node_exists
    update_project_description descriptions_in_memory memory_table one_dataset no_descriptions
is_accepted = refl
