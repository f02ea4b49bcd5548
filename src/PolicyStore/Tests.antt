-- ===== src/PolicyStore/Tests.antt =====
-- The policy store over services in memory.
use lohpi.PolicyStore.Memory.{write_in, texts_in, some_date, indexer, lookups}
use lohpi.Common.{codes, ok, ◌≡◌, refl, ◌≢◌, true, false, none, some, [], ◌∷◌, ◌++◌}
use lohpi.Proto.{Timestamp, Policy, Dataset}
use lohpi.PolicyStore.SetPolicy.Versions.{
  Effect, set_object_policy-Effect, cached_requests_share_version,
}
use lohpi.PolicyStore.SetPolicy.{
  StoreReply, accepted, decoded, next_policy, StoreState, set_object_policy,
}
use lohpi.PolicyStore.Git.RoundTrip.{git_get-git_store}
use lohpi.Node.Batch.Stale.{IsCached}
use lohpi.Extern.Memory.{memory_table, memory_redis, plain_codec}
use lohpi.Timestamp.{to_timestamppb}
use lohpi.Indexer.{set_dataset_policy, dataset}
use lohpi.LookupService.{dataset_node}
use lohpi.PolicyStore.Git.{
  replace_slashes, file_path, same_text, parse_bool, git_store_policy, git_get_dataset_policy,
}

abbrev stored_policy : Policy
stored_policy = record {
  dataset_identifier = "a/b";
  content = true;
  version = 1;
  date_created = none;
  date_applied = none;
}

no_texts : texts_in.Fs
unfolding texts_in
no_texts = λ q. none

tree_with_policy : texts_in.Fs
unfolding texts_in
tree_with_policy = write_in (λ q. none) (codes "n/a_b") (codes "true")

is_stored :
    git_store_policy texts_in (codes "n") (codes "a/b") stored_policy no_texts ≡ ok tree_with_policy
unfolding git_store_policy file_path replace_slashes texts_in no_texts tree_with_policy
is_stored = refl

is_read :
    git_get_dataset_policy texts_in (codes "n") (codes "a_b") tree_with_policy ≡ ok (codes "true")
unfolding git_get_dataset_policy file_path replace_slashes texts_in tree_with_policy same_text
is_read = refl

same_path : replace_slashes (codes "a_b") ≡ replace_slashes (codes "a/b")
unfolding replace_slashes
same_path = refl

is_full : codes "true" ≢ []
is_full h = cc

-- the policy stored for a/b is read for a_b
git_get-git_store_example : parse_bool (codes "true") ≡ ok true
git_get-git_store_example =
    git_get-git_store texts_in (codes "n") (codes "a/b") (codes "a_b") (codes "true") stored_policy
      no_texts tree_with_policy is_stored same_path is_read is_full

abbrev old_policy : Policy
old_policy = record {
  dataset_identifier = "d";
  content = false;
  version = 0;
  date_created = none;
  date_applied = none;
}

abbrev old_dataset : Dataset
old_dataset = record {
  identifier = "d";
  policy = some old_policy;
  allow_multiple_checkouts = false;
}

one_cached : indexer.redis.Mem
unfolding memory_redis
one_cached = ("d", old_dataset) ∷ []

one_cached-IsCached : IsCached indexer one_cached "d" old_dataset
unfolding one_cached memory_redis plain_codec
one_cached-IsCached = record { bytes = old_dataset; found = refl; fetched = refl; decoded = refl }

store : StoreState indexer lookups texts_in
unfolding memory_table memory_redis texts_in one_cached
store = record {
  datasets = record {
    cache = some one_cached;
    db =
        (
          "d",
          record {
            allow_multiple_checkout = false;
            policy_content = false;
            policy_version = 0;
            date_created = some_date;
            date_applied = some_date;
          },
        )
        ∷ [];
  };
  lookup = record {
    cache = none;
    db =
        (
          "d",
          record {
            node_id = "n";
            ip_address = "";
            public_id = [];
            https_address = "";
            port = 0;
            boottime = some_date;
          },
        )
        ∷ [];
  };
  work_tree = λ q. none;
  policy_chan = [];
}

abbrev noon : Timestamp
noon = record { seconds = 12; nanos = 5 }

abbrev after_grant : StoreState indexer lookups texts_in × StoreReply
after_grant = set_object_policy indexer lookups texts_in "d" (decoded true) noon store

abbrev after_revocation : StoreState indexer lookups texts_in × StoreReply
after_revocation = set_object_policy indexer lookups texts_in "d" (decoded false) noon after_grant.0

grant_accepted : after_grant.1 ≡ accepted
unfolding set_object_policy dataset set_dataset_policy dataset_node git_store_policy store
    one_cached texts_in memory_table memory_redis plain_codec to_timestamppb
grant_accepted = refl

revocation_accepted : after_revocation.1 ≡ accepted
unfolding set_object_policy dataset set_dataset_policy dataset_node git_store_policy store
    one_cached texts_in memory_table memory_redis plain_codec to_timestamppb
revocation_accepted = refl

store-cached : store.datasets.cache ≡ some one_cached
unfolding store
store-cached = refl

cached_requests_share_version_example :
    after_revocation.0.policy_chan
    ≡ store.policy_chan
      ++ next_policy "d" true old_policy noon ∷ next_policy "d" false old_policy noon ∷ []
cached_requests_share_version_example =
    cached_requests_share_version indexer lookups texts_in one_cached "d" true false noon noon store
      old_dataset old_policy store-cached one_cached-IsCached refl grant_accepted
      revocation_accepted

store-dataset : dataset indexer store.datasets "d" ≡ ok (some old_dataset)
unfolding dataset store one_cached memory_redis plain_codec
store-dataset = refl

set_object_policy-Effect_example :
    let new : Policy = record {
      dataset_identifier = "d";
      content = true;
      version = 1;
      date_created = none;
      date_applied = some noon;
    } in
    Effect indexer lookups texts_in store.policy_chan new
      (set_dataset_policy indexer "d" (some new) store.datasets).0
      after_grant
set_object_policy-Effect_example =
    set_object_policy-Effect indexer lookups texts_in "d" true noon store old_dataset old_policy
      store-dataset refl
