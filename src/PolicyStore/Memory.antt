-- ===== src/PolicyStore/Memory.antt =====
-- Services in memory for a policy store: Git as a function from paths to texts, and an indexer and a
-- lookup service over tables and caches that are lists.
use lohpi.Indexer.Uncached.{IsReliable}
use lohpi.Indexer.Inserted.{InsertAnswers, DatesReadable}
use lohpi.Common.{
  if◌then◌else◌, ==_iff, codes, ok, ok-eq, ℕ, ◌≡◌, refl, sym, ap, ◌∙◌, ◌≢◌, true, Option, none,
  some, List, [], ◌∷◌,
}
use lohpi.Proto.{Dataset, Node}
use lohpi.Extern.{is_some}
use lohpi.Extern.Memory.{some-eq, memory_table, memory_redis, plain_codec}
use lohpi.Timestamp.{to_timestamppb}
use lohpi.Indexer.{set_dataset_policy, dataset}
use lohpi.Indexer
use lohpi.LookupService.{dataset_node}
use lohpi.LookupService
use lohpi.LookupService.Refinement
use lohpi.PolicyStore.Git.{Files, same_text}

same_text_refl : (s : List ℕ) → same_text s s ≡ true
unfolding same_text
same_text_refl [] = refl
same_text_refl (a ∷ s) = rw ((==_iff a a).1 refl, same_text_refl s) refl

abbrev pub Texts : Type 0
Texts = List ℕ → Option (List ℕ)

abbrev pub write_in : Texts → List ℕ → List ℕ → Texts
write_in fs path text q = if same_text q path then some text else fs q

pub write_in-text : (fs : Texts) (path text : List ℕ) → write_in fs path text path ≡ some text
write_in-text fs path text = rw (same_text_refl path) refl

unfoldable pub texts_in : Files
texts_in = record {
  Fs = Texts;
  text_at = λ fs path. fs path;
  repository_exists = λ fs. some true;
  make_repository = λ fs. some fs;
  change_directory = λ fs. true;
  make_directory = λ fs path. some fs;
  file_exists = λ fs path. some (is_some (fs path));
  write = λ fs path text. some (write_in fs path text);
  read = λ fs path. fs path;
  commit = λ fs path. ok fs;
  write_text = λ fs path text fs' h.
      ap (λ (g : Texts). g path) (sym (some-eq _ _ h)) ∙ write_in-text fs path text;
  read_text = λ fs path text h. h;
  commit_text = λ fs path text fs' h e. ap (λ (g : Texts). g path) (sym (ok-eq _ _ e)) ∙ h;
}

abbrev pub some_date : List ℕ
some_date = codes "seconds:12 nanos:5"

abbrev pub indexer : Indexer.Services
indexer = record {
  Bytes = Dataset;
  table = memory_table Indexer.Row;
  redis = memory_redis Dataset;
  codec = plain_codec Dataset;
  timestamp_text = λ t. some_date;
}

abbrev pub lookups : LookupService.Services
lookups = record {
  Bytes = Node;
  table = memory_table LookupService.Row;
  redis = memory_redis Node;
  codec = plain_codec Node;
  timestamp_text = λ t. some_date;
}

-- the date that is written is read back
pub DatesReadable-indexer : DatesReadable indexer
unfolding to_timestamppb
DatesReadable-indexer t = (record { seconds = 12; nanos = 5 }, refl)

some-not-none {ℓ} : {A : Type ℓ} (a : A) → some a ≢ none
some-not-none a h = cc

pub indexer-IsReliable : IsReliable indexer
unfolding memory_table
indexer-IsReliable = record {
  update_answers = λ db k f. some-not-none _;
  select_answers = λ db k. some-not-none _;
  exists_answers = λ db k. some-not-none _;
}

pub InsertAnswers-indexer : InsertAnswers indexer
unfolding memory_table
InsertAnswers-indexer db k r = some-not-none _

pub lookups-IsReliable : Refinement.IsReliable lookups
unfolding memory_table memory_redis plain_codec
lookups-IsReliable = record {
  set_answers = λ m k b. some-not-none _;
  del_answers = λ m k. some-not-none _;
  marshal_answers = λ n. some-not-none n;
  upsert_answers = λ db k r. some-not-none _;
  delete_answers = λ db k. some-not-none _;
  select_answers = λ db k. some-not-none _;
  exists_answers = λ db k. some-not-none _;
}
