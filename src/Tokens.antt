-- ===== src/Tokens.antt =====
-- The validation of tokens: `validateTokenSignature` and `middlewareValidateTokenSignature` of
-- core/policystore/http.go, with its copy in core/directoryserver/http.go, and the middleware of
-- core/node/http.go. The key set and the signatures are those of a library.
mod Valid
use lohpi.Common.{
  network_error, format_error, Outcome, ok, err, panic, ◌>>=◌, or_err, ℕ, Bool, true, false, ◌||◌,
  Option, List, [], ◌∷◌,
}
use lohpi.Node.Http.{get_bearer_token}

-- the key set that the cache of keys fetches, and `jws.Verify`
pub record KeyCache : Type 1 where
  pub Key : Type 0
  pub fetched : Option (List Key)
  pub verify : List ℕ → Key → Bool

-- what the middleware does with a request
pub data Passage : Type 0 where
  let_through stopped : Passage
  turned_away : ℕ → Passage

module _ (keys : KeyCache) where
  open keys use {Key, fetched, verify}

  -- the keys are tried in turn
  unfoldable pub some_key_verifies : List ℕ → List Key → Bool
  some_key_verifies token [] = false
  some_key_verifies token (key ∷ set) = verify token key || some_key_verifies token set

  abbrev pub checked : Bool → Outcome (Unit {0})
  checked true = ok tt
  checked false = err format_error

  -- `validateTokenSignature`
  unfoldable pub validate_token_signature : List ℕ → Outcome (Unit {0})
  unfolding some_key_verifies
  validate_token_signature token =
      or_err network_error fetched >>= λ set. checked (some_key_verifies token set)

  abbrev pub passage : Outcome (Unit {0}) → Passage
  passage (ok _) = let_through
  passage (err e) = turned_away 400
  passage panic = stopped

  -- the middleware of the policy store and of the directory server
  unfoldable pub validate_token_middleware : List ℕ → Passage
  unfolding validate_token_signature
  validate_token_middleware header = passage (get_bearer_token header >>= validate_token_signature)

-- the middleware of a node: a header without a token panics, and any token passes
abbrev pub node_passage : Outcome (List ℕ) → Passage
node_passage (ok token) = let_through
node_passage _ = stopped

unfoldable pub node_token_middleware : List ℕ → Passage
node_token_middleware header = node_passage (get_bearer_token header)
