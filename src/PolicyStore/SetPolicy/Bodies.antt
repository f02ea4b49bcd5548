-- ===== src/PolicyStore/SetPolicy/Bodies.antt =====
-- The bodies of the requests to `setObjectPolicy` of core/policystore/http.go.
use lohpi.Common.{
  Bool-cases, Outcome, ok, err, panic, ℕ, String, ◌≡◌, refl, ◌≢◌, ◌↔◌, ◌⊎◌, inl, inr, Bool, Option,
  none, some, arith, str_eq, eq_iff,
}
use lohpi.Proto.{Timestamp, Dataset}
use lohpi.Streaming.Json.{
  DecodeError, syntax_error, unexpected_eof, type_error, unknown_field, empty_body, too_large,
  other_cause, Rest, at_end, more, JsonRequest, JsonResult, parsed, malformed, unparsed,
  decode_first, decode_json_body,
}
use lohpi.Indexer.{dataset, State}
use lohpi.Indexer
use lohpi.LookupService
use lohpi.PolicyStore.Git.{Files}
use lohpi.PolicyStore.SetPolicy.{
  StoreReply, accepted, malformed, Body, decoded, undecoded, StoreState, with_dataset,
  set_object_policy,
}

-- the struct that a body is decoded into: an object without the field, and `null`, leave it false
pub record PolicyBody : Type 0 where
  pub policy : Bool

-- an error that is not a `MalformedParserReponse` is answered as an internal error
abbrev pub body_of : JsonResult PolicyBody → Body
body_of (parsed body) = decoded body.policy
body_of (malformed code) = undecoded code
body_of unparsed = undecoded 500

-- a request whose body is one JSON value, which decodes into the struct
abbrev pub IsWellFormed : String → PolicyBody → JsonRequest PolicyBody → Type 0
IsWellFormed content_type a r =
    (r.content_type ≡ content_type) × (r.first ≡ inl a) × (r.second ≡ at_end)

decode_first-parsed :
    (f : PolicyBody ⊎ DecodeError) (rest : Rest) (a : PolicyBody)
    → decode_first f rest ≡ parsed a
    → (f ≡ inl a) × (rest ≡ at_end)
decode_first-parsed (inl b) at_end a h = (cc, refl)
decode_first-parsed (inl b) more a h = absurd (cc)
decode_first-parsed (inr too_large) rest a h = absurd (cc)
decode_first-parsed (inr other_cause) rest a h = absurd (cc)
decode_first-parsed (inr syntax_error) rest a h = absurd (cc)
decode_first-parsed (inr unexpected_eof) rest a h = absurd (cc)
decode_first-parsed (inr type_error) rest a h = absurd (cc)
decode_first-parsed (inr unknown_field) rest a h = absurd (cc)
decode_first-parsed (inr empty_body) rest a h = absurd (cc)

-- `DecodeJSONBody` gives a value exactly where the content type is the one that is asked for and the
-- body decodes into this value and has nothing behind it.
pub decode_json_body_iff :
    (content_type : String) (r : JsonRequest PolicyBody) (a : PolicyBody)
    → (decode_json_body content_type r ≡ parsed a) ↔ IsWellFormed content_type a r
unfolding decode_json_body
decode_json_body_iff content_type r a = elim (Bool-cases (str_eq r.content_type content_type)) [
  | inl same ↦ (
    λ h.
        let (f, s) = decode_first-parsed r.first r.second a (rw same at h) in
        ((eq_iff r.content_type content_type).0 same, f, s),
    λ (t, f, s). rw (same, f, s) refl,
  )
  | inr other ↦ (
    λ h. absurd (ground (arith, other, h)),
    λ (t, f, s). absurd (ground (arith, other, (eq_iff r.content_type content_type).1 t)),
  )
]

module _ (indexer : Indexer.Services) (lookups : LookupService.Services) (files : Files) where
  -- the state is unchanged, and the request is not accepted
  abbrev pub Unaccepted :
      StoreState indexer lookups files → StoreState indexer lookups files × StoreReply → Type 0
  Unaccepted s result = (result.0 ≡ s) × (result.1 ≢ accepted)

  with_dataset-undecoded :
      (k : String) (code : ℕ) (now : Timestamp) (s : StoreState indexer lookups files)
      (o : Outcome (Option Dataset))
      → Unaccepted s (with_dataset indexer lookups files k (undecoded code) now s o)
  with_dataset-undecoded k code now s (ok (some d)) = (refl, λ h. absurd (cc))
  with_dataset-undecoded k code now s (ok none) = (refl, λ h. absurd (cc))
  with_dataset-undecoded k code now s (err e) = (refl, λ h. absurd (cc))
  with_dataset-undecoded k code now s panic = (refl, λ h. absurd (cc))

  -- A request to `setObjectPolicy` that does not have the content type of JSON, or whose body is
  -- not one JSON value that decodes into a struct with the Boolean field Policy, is not accepted
  -- and leaves the policy store as it was: no policy is set, stored in Git or queued.
  pub ill_formed_request_changes_nothing :
      (k : String) (now : Timestamp) (s : StoreState indexer lookups files)
      (r : JsonRequest PolicyBody)
      → ((a : PolicyBody) → ¬ (IsWellFormed "application/json" a r))
      → Unaccepted s (
          set_object_policy indexer lookups files k
            (body_of (decode_json_body "application/json" r))
            now
            s)
  unfolding set_object_policy
  ill_formed_request_changes_nothing k now s r ill = go (decode_json_body "application/json" r) refl
    where
      go :
          (x : JsonResult PolicyBody)
          → decode_json_body "application/json" r ≡ x
          → Unaccepted s (
              with_dataset indexer lookups files k (body_of x) now s (dataset indexer s.datasets k))
      go (parsed a) e = absurd (ill a ((decode_json_body_iff "application/json" r a).0 e))
      go (malformed code) e = with_dataset-undecoded k code now s _
      go unparsed e = with_dataset-undecoded k 500 now s _
