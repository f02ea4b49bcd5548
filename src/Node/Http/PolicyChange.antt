-- ===== src/Node/Http/PolicyChange.antt =====
-- The handler `setDatasetPolicy` of core/node/http.go, in which the call that sets the policy is
-- commented out. The body of a request has a text.
use lohpi.Common.{
  if◌then◌else◌, Bool-cases, Outcome, ok, ℕ, String, ◌≡◌, refl, inl, inr, Bool, true, false, str_eq,
}
use lohpi.Streaming.Json.{JsonRequest, JsonResult, parsed, malformed, unparsed, decode_json_body}
use lohpi.Indexer.{State, dataset_exists, db_dataset_exists}
use lohpi.Indexer
use lohpi.Indexer.Uncached.{uncached, dataset_exists_lem}

-- an error by its status, the message of success, or a panic
pub data PolicyReply : Type 0 where
  rejected : ℕ → PolicyReply
  policy_created policy_crashed : PolicyReply

-- what is written for a decoded body
abbrev pub body_reply : JsonResult String → PolicyReply
body_reply (parsed policy) = policy_created
body_reply (malformed code) = rejected code
body_reply unparsed = rejected 500

module _ (ext : Indexer.Services) where
  abbrev pub policy_where : JsonRequest String → State ext × Outcome Bool → State ext × PolicyReply
  policy_where request (s, ok true) = (s, body_reply (decode_json_body "application/json" request))
  policy_where request (s, ok false) = (s, rejected 404)
  policy_where request (s, _) = (s, policy_crashed)

  -- the handler `setDatasetPolicy`
  unfoldable pub set_policy_handler :
      JsonRequest String → String → State ext → State ext × PolicyReply
  set_policy_handler request dataset_id s =
      if str_eq request.content_type "application/json"
      then (if str_eq dataset_id ""
          then (s, rejected 400)
          else policy_where request (dataset_exists ext dataset_id s))
      else (s, rejected 415)

  policy_where-unchanged :
      (request : JsonRequest String) (s : State ext) (b : Bool)
      → (policy_where request (s, ok b)).0 ≡ s
  policy_where-unchanged request s true = refl
  policy_where-unchanged request s false = refl

  -- Without a cache no request to `setDatasetPolicy` changes the state of the node, also where it
  -- is answered that a new policy was set.
  set_policy_handler-unchanged :
      (request : JsonRequest String) (dataset_id : String) (db : ext.table.Db)
      → (set_policy_handler request dataset_id (uncached ext db)).0 ≡ uncached ext db
  unfolding set_policy_handler
  set_policy_handler-unchanged request dataset_id db =
      elim (Bool-cases (str_eq request.content_type "application/json")) [
        | inr other ↦ rw other refl
        | inl json ↦ rw json (elim (Bool-cases (str_eq dataset_id "")) [
          | inl unnamed ↦ rw unnamed refl
          | inr named ↦
              rw (named, dataset_exists_lem ext db dataset_id)
                (policy_where-unchanged request (uncached ext db)
                  (db_dataset_exists ext db dataset_id))
        ])
      ]
