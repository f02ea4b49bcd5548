-- ===== src/PolicyStore/Deltas/Tests.antt =====
-- A node with one dataset, whose policy grants access, at an empty policy store.
use lohpi.Common.{String, true, some, List, [], ◌∷◌}
use lohpi.Proto.{Dataset, empty_policy}
use lohpi.Extern.Memory.{memory_table}
use lohpi.PolicyStore.Memory.{indexer}
use lohpi.PolicyStore.Request.{Clock}

abbrev clock : Clock
clock = (record { seconds = 12; nanos = 5 }, record { seconds = 12; nanos = 5 })

abbrev granted : Dataset
granted = record {
  identifier = "d";
  policy = some (record empty_policy { dataset_identifier = "d"; content = true; version = 3 });
  allow_multiple_checkouts = true;
}

abbrev of_node : List (String × Dataset)
of_node = ("d", granted) ∷ []

no_rows : indexer.table.Db
unfolding memory_table
no_rows = []
