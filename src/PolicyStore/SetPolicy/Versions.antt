-- ===== src/PolicyStore/SetPolicy/Versions.antt =====
-- The policies that `setObjectPolicy` queues, and their versions.
use mathlib.Core.List.{append_assoc}
use lohpi.Common.{
  Outcome, ok, err, panic, ◌+◌, ◌%◌, ◌^◌, String, ◌≡◌, refl, ap, ◌∙◌, ◌≢◌, Bool, Option, none, some,
  List, [], ◌∷◌, ◌++◌,
}
use lohpi.Proto.{Timestamp, Policy, Dataset, Node}
use lohpi.Indexer.{
  State, dataset, set_dataset_policy, db_insert_dataset_policy, with_db, dataset_exists,
}
use lohpi.Indexer
use lohpi.LookupService
use lohpi.Node.Batch.Stale.{IsCached, cached, exists_cached, dataset_cached}
use lohpi.PolicyStore.Git.{Files}
use lohpi.PolicyStore.SetPolicy.{
  StoreReply, accepted, decoded, next_policy, StoreState, queue_stored, with_node, after_set,
  set_object_policy,
}

module _ (indexer : Indexer.Services) (lookups : LookupService.Services) (files : Files) where
  open indexer use {redis, table}

  -- an accepted request has queued the policy, and any other has queued nothing
  abbrev pub Queues : List Policy → Policy → StoreState indexer lookups files × StoreReply → Type 0
  Queues chan new result =
      (result.1 ≡ accepted → result.0.policy_chan ≡ chan ++ new ∷ [])
      × (result.1 ≢ accepted → result.0.policy_chan ≡ chan)

  -- the effect of a request on the queue and on the indexer
  abbrev pub Effect :
      List Policy → Policy → State indexer → StoreState indexer lookups files × StoreReply → Type 0
  Effect chan new d result = Queues chan new result × (result.0.datasets ≡ d)

  queue_stored-Effect :
      (new : Policy) (s : StoreState indexer lookups files) (o : Outcome files.Fs)
      → Effect s.policy_chan new s.datasets (queue_stored indexer lookups files new s o)
  queue_stored-Effect new s (ok fs) = ((λ h. refl, λ h. absurd (h refl)), refl)
  queue_stored-Effect new s (err e) = ((λ h. absurd (cc), λ h. refl), refl)
  queue_stored-Effect new s panic = ((λ h. absurd (cc), λ h. refl), refl)

  with_node-Effect :
      (k : String) (new : Policy) (s : StoreState indexer lookups files) (o : Outcome (Option Node))
      → Effect s.policy_chan new s.datasets (with_node indexer lookups files k new s o)
  with_node-Effect k new s (ok (some node)) = queue_stored-Effect new s _
  with_node-Effect k new s (ok none) = ((λ h. absurd (cc), λ h. refl), refl)
  with_node-Effect k new s (err e) = ((λ h. absurd (cc), λ h. refl), refl)
  with_node-Effect k new s panic = ((λ h. absurd (cc), λ h. refl), refl)

  after_set-Effect :
      (k : String) (new : Policy) (s : StoreState indexer lookups files)
      (x : State indexer × Outcome (Unit {0}))
      → Effect s.policy_chan new x.0 (after_set indexer lookups files k new s x)
  after_set-Effect k new s (d, ok _) = with_node-Effect k new (record s { datasets = d }) _
  after_set-Effect k new s (d, err e) = ((λ h. absurd (cc), λ h. refl), refl)
  after_set-Effect k new s (d, panic) = ((λ h. absurd (cc), λ h. refl), refl)

  -- A request for a dataset with a policy queues, if it is accepted, exactly one policy: the
  -- requested content, the next version (modulo 2^64) and the date of creation of the old policy;
  -- any other reply queues nothing. Either way the indexer is left as `SetDatasetPolicy` of this
  -- policy leaves it, so that a reply of an error may come after the policy was set.
  pub set_object_policy-Effect :
      (k : String) (content : Bool) (now : Timestamp) (s : StoreState indexer lookups files)
      (d : Dataset) (old : Policy)
      → dataset indexer s.datasets k ≡ ok (some d)
      → d.policy ≡ some old
      → let new : Policy = record {
        dataset_identifier = k;
        content = content;
        version = (old.version + 1) % 2 ^ 64;
        date_created = old.date_created;
        date_applied = some now;
      } in
        Effect s.policy_chan new
          (set_dataset_policy indexer k (some new) s.datasets).0
          (set_object_policy indexer lookups files k (decoded content) now s)
  unfolding set_object_policy
  set_object_policy-Effect k content now s d old e p =
      rw (e, p) (after_set-Effect k (next_policy k content old now) s _)

  with_db-cache :
      (m : redis.Mem) (db : table.Db) (o : Outcome table.Db)
      → (with_db indexer (cached indexer m db) o).0.cache ≡ some m
  with_db-cache m db (ok db') = refl
  with_db-cache m db (err e) = refl
  with_db-cache m db panic = refl

  set_dataset_policy-cache :
      (m : redis.Mem) (db : table.Db) (k : String) (d : Dataset) (p : Policy)
      → IsCached indexer m k d
      → (set_dataset_policy indexer k (some p) (cached indexer m db)).0.cache ≡ some m
  unfolding set_dataset_policy
  set_dataset_policy-cache m db k d p c =
      rw (exists_cached indexer m db k d c) (with_db-cache m db _)

  dataset_in :
      (s : State indexer) (m : redis.Mem) (k : String) (d : Dataset)
      → s.cache ≡ some m
      → IsCached indexer m k d
      → dataset indexer s k ≡ ok (some d)
  dataset_in s m k d e c = rw (← e) at (dataset_cached indexer m s.db k d c)

  -- Two accepted requests in a row for a dataset that the cache holds queue two policies of the
  -- same version, whatever contents they ask for.
  pub cached_requests_share_version :
      (m : redis.Mem) (k : String) (content content' : Bool) (now now' : Timestamp)
      (s : StoreState indexer lookups files) (d : Dataset) (old : Policy)
      → s.datasets.cache ≡ some m
      → IsCached indexer m k d
      → d.policy ≡ some old
      → let first = set_object_policy indexer lookups files k (decoded content) now s in
        let second = set_object_policy indexer lookups files k (decoded content') now' first.0 in
        first.1 ≡ accepted
        → second.1 ≡ accepted
        → second.0.policy_chan
          ≡ s.policy_chan ++ next_policy k content old now ∷ next_policy k content' old now' ∷ []
  cached_requests_share_version m k content content' now now' s d old e c p one two =
      let new = next_policy k content old now in
      let ((first, _), left) =
        set_object_policy-Effect k content now s d old (dataset_in s.datasets m k d e c) p in
      let same : s.datasets ≡ cached indexer m s.datasets.db =
        ap (λ x. record { cache = x; db = s.datasets.db }) e in
      let still =
        ap (λ t. t.cache) left
        ∙ ap (λ t. (set_dataset_policy indexer k (some new) t).0.cache) same
        ∙ set_dataset_policy-cache m s.datasets.db k d new c in
      let ((second, _), _) =
        set_object_policy-Effect k content' now' _ d old (dataset_in _ m k d still c) p in
      second two
      ∙ ap (λ chan. chan ++ next_policy k content' old now' ∷ []) (first one)
      ∙ append_assoc s.policy_chan (new ∷ []) (next_policy k content' old now' ∷ [])
