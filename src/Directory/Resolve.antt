-- ===== src/Directory/Resolve.antt =====
-- What `resolveDatasetIdentifiersDeltas` leaves in the lookup service.
use lohpi.Common.{
  if◌then◌else◌, All, Outcome, ok, err, panic, String, ◌≡◌, refl, ap, ◌∙◌, ◌≢◌, false, ◌&&◌, not,
  Option, none, some, List, [], ◌∷◌, ◌++◌, arith, str_eq, eq_iff,
}
use lohpi.Proto.{Node}
use lohpi.LookupService.{
  Services, State, dataset_node, insert_dataset_node, remove_dataset_node, dataset_identifiers,
}
use lohpi.LookupService.Refinement.{
  Call, insert, remove, after, spec, IsReliable, Readable, ReadableCall, step, run, Represents,
}
use lohpi.LookupService.Calm.{insert-calm, remove-calm}
use lohpi.LookupService.Reads.{service_refines_map}
use lohpi.Directory.{
  is_listed, superfluous, go_on, insert_all, remove_all, resolve_dataset_identifiers_deltas,
}

abbrev inserts : List String → Node → List Call
inserts [] n = []
inserts (k ∷ ids) n = insert k n ∷ inserts ids n

abbrev removes : List String → List Call
removes [] = []
removes (k ∷ ids) = remove k ∷ removes ids

spec-append : (a b : List Call) (f : String → Option Node) → spec (a ++ b) f ≡ spec b (spec a f)
spec-append [] b f = refl
spec-append (c ∷ a) b f = spec-append a b (after c f)

spec-inserts :
    (ids : List String) (n : Node) (f : String → Option Node) (k : String)
    → spec (inserts ids n) f k ≡ (if is_listed ids k then some n else f k)
unfolding is_listed
spec-inserts [] n f k = refl
spec-inserts (j ∷ ids) n f k = ground (arith, spec-inserts ids n (after (insert j n) f) k)

spec-removes :
    (ids : List String) (f : String → Option Node) (k : String)
    → str_eq k "" ≡ false
    → spec (removes ids) f k ≡ (if is_listed ids k then none else f k)
unfolding is_listed
spec-removes [] f k named = refl
spec-removes (j ∷ ids) f k named =
    ground (
      arith,
      spec-removes ids (after (remove j) f) k named,
      eq_iff j k,
      ap (λ x. str_eq x ""),
      named,
    )

is_listed-superfluous :
    (current ids : List String) (k : String)
    → is_listed (superfluous current ids) k ≡ (is_listed current k && not (is_listed ids k))
unfolding is_listed superfluous
is_listed-superfluous [] ids k = refl
is_listed-superfluous (j ∷ current) ids k =
    ground (arith, is_listed-superfluous current ids k, eq_iff j k, ap (is_listed ids))

forgotten :
    (current ids : List String) (n : Node) (f : String → Option Node) (k : String)
    → str_eq k "" ≡ false
    → spec (removes (superfluous current ids)) (spec (inserts ids n) f) k
      ≡ (if is_listed ids k then some n else if is_listed current k then none else f k)
forgotten current ids n f k named = ground (
  arith,
  spec-removes (superfluous current ids) (spec (inserts ids n) f) k named,
  spec-inserts ids n f k,
  is_listed-superfluous current ids k,
)

module _ (ext : Services) where
  open ext use {table}

  run-append : (a b : List Call) (s : State ext) → run ext (a ++ b) s ≡ run ext b (run ext a s)
  run-append [] b s = refl
  run-append (c ∷ a) b s = run-append a b (step ext c s)

  go_on-calm :
      (rest : State ext → State ext × Outcome (Unit {0})) (result : State ext × Outcome (Unit {0}))
      → result.1 ≢ panic
      → go_on ext rest result ≡ rest result.0
  go_on-calm rest (s, panic) calm = absurd (calm refl)
  go_on-calm rest (s, err e) calm = refl
  go_on-calm rest (s, ok _) calm = refl

  insert_all-run :
      IsReliable ext
      → (ids : List String) (n : Node) (s : State ext)
      → ((insert_all ext ids n s).0 ≡ run ext (inserts ids n) s)
        × ((insert_all ext ids n s).1 ≢ panic)
  unfolding insert_all
  insert_all-run reliable [] n s = (refl, λ h. cc)
  insert_all-run reliable (k ∷ ids) n s =
      rw
        (go_on-calm (insert_all ext ids n) (insert_dataset_node ext k (some n) s)
          (insert-calm ext reliable k n s))
        (insert_all-run reliable ids n (insert_dataset_node ext k (some n) s).0)

  remove_all-run :
      IsReliable ext
      → (ids : List String) (s : State ext) → (remove_all ext ids s).0 ≡ run ext (removes ids) s
  unfolding remove_all
  remove_all-run reliable [] s = refl
  remove_all-run reliable (k ∷ ids) s =
      rw
        (go_on-calm (remove_all ext ids) (remove_dataset_node ext k s)
          (remove-calm ext reliable k s))
        (remove_all-run reliable ids (remove_dataset_node ext k s).0)

  resolve-run :
      IsReliable ext
      → (ids : List String) (n : Node) (s : State ext)
      → (resolve_dataset_identifiers_deltas ext (some ids) (some n) s).0
        ≡ run ext (inserts ids n ++ removes (superfluous (dataset_identifiers ext s) ids)) s
  unfolding resolve_dataset_identifiers_deltas
  resolve-run reliable ids n s =
      let gone = superfluous (dataset_identifiers ext s) ids in
      let (inserted, calm) = insert_all-run reliable ids n s in
      rw
        (
          go_on-calm (remove_all ext gone) (insert_all ext ids n s) calm,
          remove_all-run reliable gone (insert_all ext ids n s).0,
          inserted,
          run-append (inserts ids n) (removes gone) s,
        )
        refl

  Readable-inserts :
      (ids : List String) (n : Node) (rest : List Call)
      → Readable ext n
      → All (ReadableCall ext) rest
      → All (ReadableCall ext) (inserts ids n ++ rest)
  Readable-inserts [] n rest r h = h
  Readable-inserts (k ∷ ids) n rest r h = (r, Readable-inserts ids n rest r h)

  Readable-removes : (ids : List String) → All (ReadableCall ext) (removes ids)
  Readable-removes [] = tt
  Readable-removes (k ∷ ids) = (tt, Readable-removes ids)

  -- While the services answer, `resolveDatasetIdentifiersDeltas` for one node gives the node the
  -- datasets that it names, and takes every other dataset that `DatasetIdentifiers` lists out of
  -- the lookup service, whichever node stores it. What is neither named nor listed stays.
  pub resolve_forgets_other_nodes :
      IsReliable ext
      → (ids : List String) (n : Node) (s : State ext) (f : String → Option Node) (k : String)
      → Readable ext n
      → Represents ext s f
      → str_eq k "" ≡ false
      → dataset_node ext (resolve_dataset_identifiers_deltas ext (some ids) (some n) s).0 k
        ≡ ok (
            if is_listed ids k
            then some n
            else if is_listed (dataset_identifiers ext s) k
            then none
            else f k)
  resolve_forgets_other_nodes reliable ids n s f k readable h named =
      let gone = superfluous (dataset_identifiers ext s) ids in
      let calls = inserts ids n ++ removes gone in
      let refined =
        service_refines_map ext reliable calls s f k
          (Readable-inserts ids n (removes gone) readable (Readable-removes gone)) h named in
      ap (λ t. dataset_node ext t k) (resolve-run reliable ids n s)
      ∙ refined.0
      ∙ ap (λ g. ok (g k)) (spec-append (inserts ids n) (removes gone) f)
      ∙ ap ok (forgotten (dataset_identifiers ext s) ids n f k named)
