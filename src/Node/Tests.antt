-- ===== src/Node/Tests.antt =====
-- The storage node over services in memory.
use lohpi.Common.{
  if◌then◌else◌, codes, ok, panic, ℕ, ◌≤◌, String, ◌≡◌, refl, ◌≢◌, Bool, true, false, Option, none,
  some, List, [], ◌∷◌, arith, str_eq,
}
use lohpi.Proto.{Policy, Dataset}
use lohpi.Timestamp.{to_timestamppb}
use lohpi.Extern.{map_some}
use lohpi.Extern.Memory.{memory_table, memory_redis, plain_codec}
use lohpi.Indexer.{Row, Services, set_policy, dataset, dataset_exists, set_dataset_policy}
use lohpi.Indexer.Uncached.{IsReliable, IsDate, Readable, uncached, version_of}
use lohpi.Node.Batch.{apply_policy, process_policy_batch}
use lohpi.Node.Batch.Newest.{batch_keeps_newer}
use lohpi.Node.Batch.Held.{newest, held_at, AllReadable}
use lohpi.Node.Batch.Fold.{batch_leaves_newest}
use lohpi.Node.Batch.Stale.{IsCached, cached, cached_policy_goes_back}

abbrev some_date : List ℕ
some_date = codes "seconds:12 nanos:5"

abbrev in_memory : Services
in_memory = record {
  Bytes = Dataset;
  table = memory_table Row;
  redis = memory_redis Dataset;
  codec = plain_codec Dataset;
  timestamp_text = λ t. some_date;
}

some-ne-none {ℓ} : {A : Type ℓ} (a : A) → some a ≢ none
some-ne-none a h = cc

in_memory-IsReliable : IsReliable in_memory
unfolding memory_table
in_memory-IsReliable = record {
  update_answers = λ db k f. some-ne-none _;
  select_answers = λ db k. some-ne-none _;
  exists_answers = λ db k. some-ne-none _;
}

abbrev policy : String → Bool → ℕ → Policy
policy k content version = record {
  dataset_identifier = k;
  content = content;
  version = version;
  date_created = none;
  date_applied = none;
}

some_date-IsDate : IsDate in_memory some_date
unfolding to_timestamppb
some_date-IsDate = (record { seconds = 12; nanos = 5 }, refl)

abbrev first_row : Row
first_row = record {
  allow_multiple_checkout = false;
  policy_content = false;
  policy_version = 1;
  date_created = some_date;
  date_applied = some_date;
}

-- a table with one dataset
one_dataset : in_memory.table.Db
unfolding memory_table
one_dataset = ("d", first_row) ∷ []

abbrev batch : List (Option Policy)
batch = some (policy "d" false 2) ∷ some (policy "e" true 9) ∷ some (policy "d" true 1) ∷ []

-- the batch replaces version 1 by version 2
batch_result :
    held_at in_memory
      (process_policy_batch in_memory (some batch) (uncached in_memory one_dataset)).0.db
      "d"
    ≡ some (false, 2)
unfolding process_policy_batch apply_policy dataset dataset_exists set_dataset_policy one_dataset
    memory_table to_timestamppb
batch_result = refl

batch_keeps_newer_example :
    version_of in_memory (in_memory.table.row one_dataset "d")
    ≤ version_of in_memory (
        in_memory.table.row
          (process_policy_batch in_memory (some batch) (uncached in_memory one_dataset)).0.db
          "d")
batch_keeps_newer_example = batch_keeps_newer in_memory (some batch) one_dataset "d"

find-AllReadable : (k : String) (b : Bool) → Readable in_memory (if b then some first_row else none)
find-AllReadable k true = (some_date-IsDate, some_date-IsDate)
find-AllReadable k false = tt

one_dataset-AllReadable : AllReadable in_memory one_dataset
unfolding one_dataset memory_table
one_dataset-AllReadable k = find-AllReadable k (str_eq "d" k)

batch_leaves_newest_example :
    let result = process_policy_batch in_memory (some batch) (uncached in_memory one_dataset) in
    (result.1 ≢ panic)
    × (held_at in_memory result.0.db "d"
        ≡ map_some (newest "d" batch) (held_at in_memory one_dataset "d"))
batch_leaves_newest_example =
    batch_leaves_newest in_memory in_memory-IsReliable (some (policy "d" false 2))
      (some (policy "e" true 9) ∷ some (policy "d" true 1) ∷ []) one_dataset "d"
      one_dataset-AllReadable (some_date-IsDate, (some_date-IsDate, (some_date-IsDate, tt))) refl

abbrev old_dataset : Dataset
old_dataset = record {
  identifier = "d";
  policy = some (policy "d" false 1);
  allow_multiple_checkouts = false;
}

one_cached : in_memory.redis.Mem
unfolding memory_redis
one_cached = ("d", old_dataset) ∷ []

one_cached-IsCached : IsCached in_memory one_cached "d" old_dataset
unfolding one_cached memory_redis plain_codec
one_cached-IsCached = record { bytes = old_dataset; found = refl; fetched = refl; decoded = refl }

at_five : in_memory.table.Db
unfolding memory_table
at_five = ("d", set_policy in_memory (policy "d" true 5) first_row) ∷ []

at_three : in_memory.table.Db
unfolding memory_table
at_three =
    (
      "d",
      set_policy in_memory (policy "d" false 3)
          (set_policy in_memory (policy "d" true 5) first_row),
    )
    ∷ []

to_five :
    in_memory.table.update one_dataset "d" (set_policy in_memory (policy "d" true 5)) ≡ some at_five
unfolding memory_table one_dataset at_five
to_five = refl

to_three :
    in_memory.table.update at_five "d" (set_policy in_memory (policy "d" false 3)) ≡ some at_three
unfolding memory_table at_five at_three
to_three = refl

cached_policy_goes_back_example :
    let result =
      process_policy_batch in_memory
        (some (some (policy "d" true 5) ∷ some (policy "d" false 3) ∷ []))
        (cached in_memory one_cached one_dataset) in
    (result ≡ (cached in_memory one_cached at_three, ok tt))
    × (in_memory.table.row at_three "d"
        ≡ map_some (set_policy in_memory (policy "d" false 3)) (
            map_some
              (set_policy in_memory (policy "d" true 5))
              (in_memory.table.row one_dataset "d")))
    × (dataset in_memory result.0 "d" ≡ ok (some old_dataset))
cached_policy_goes_back_example =
    cached_policy_goes_back in_memory one_cached one_dataset at_five at_three "d"
      (policy "d" true 5) (policy "d" false 3) old_dataset one_cached-IsCached refl refl
      (ground arith) (ground arith) to_five to_three
