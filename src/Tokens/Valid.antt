-- ===== src/Tokens/Valid.antt =====
-- Which requests the middleware of core/policystore/http.go and core/node/http.go lets through.
use mathlib.Core.Path.{subst}
use lohpi.Extern.Memory.{some-eq}
use lohpi.Common.{
  Bool-cases, Outcome, ok, err, panic, ◌>>=◌, ok-eq, ℕ, ◌≡◌, refl, sym, ap, ◌∙◌, ◌↔◌, inl, inr,
  true, false, Option, none, some, List, [], ◌∷◌, arith,
}
use mathlib.Core.List.{Memᴰ}
use mathlib.Core.List.Memᴰ.{head, tail}
use mathlib.Core.List.Memᴰ
use lohpi.Node.Http.{get_bearer_token}
use lohpi.Tokens.{
  KeyCache, let_through, some_key_verifies, validate_token_signature, passage,
  validate_token_middleware, node_passage, node_token_middleware,
}

module _ (keys : KeyCache) where
  open keys use {Key, fetched, verify}

  abbrev VerifiedBy : List ℕ → List Key → Type 0
  VerifiedBy token set = (key : Key) × Memᴰ key set × (verify token key ≡ true)

  some_key_verifies_iff :
      (token : List ℕ) (set : List Key)
      → (some_key_verifies keys token set ≡ true) ↔ VerifiedBy token set
  unfolding some_key_verifies
  some_key_verifies_iff token [] = (λ h. absurd (cc), λ (key, m, v). absurd (Memᴰ.not-nil m))
  some_key_verifies_iff token (key ∷ set) = elim (Bool-cases (verify token key)) [
    | inl valid ↦ (λ h. (key, head refl, valid), λ v. rw valid refl)
    | inr invalid ↦ (
      λ h.
          let (other, m, v) = (some_key_verifies_iff token set).0 (rw invalid at h) in
          (other, tail m, v),
      λ (other, m, v). rw invalid (elim (Memᴰ.cases_cons m) [
        | inl same ↦ absurd (ground (arith, ap (verify token) same, v, invalid))
        | inr later ↦ (some_key_verifies_iff token set).1 (other, later, v)
      ]),
    )
  ]

  not_verified :
      (token : List ℕ) (set other : List Key)
      → other ≡ set
      → some_key_verifies keys token set ≡ false
      → VerifiedBy token other
      → ⊥
  not_verified token set other same invalid v =
      let valid = (some_key_verifies_iff token set).1 (subst (VerifiedBy token) same v) in cc

  validated_iff :
      (token : List ℕ) (found : Option (List Key))
      → fetched ≡ found
      → (passage keys (validate_token_signature keys token) ≡ let_through)
        ↔ ((set : List Key) × (fetched ≡ some set) × VerifiedBy token set)
  unfolding validate_token_signature
  validated_iff token none e = rw e (λ h. absurd (cc), λ (set, f, v). absurd (cc))
  validated_iff token (some set) e = rw e (elim (Bool-cases (some_key_verifies keys token set)) [
    | inl valid ↦ rw valid (λ h. (set, refl, (some_key_verifies_iff token set).0 valid), λ v. refl)
    | inr invalid ↦ rw invalid (
      λ h. absurd (cc),
      λ (other, f, v). absurd (not_verified token set other (sym (some-eq _ _ f)) invalid v),
    )
  ])

  bearer_iff :
      (header : List ℕ) (o : Outcome (List ℕ))
      → get_bearer_token header ≡ o
      → (passage keys (o >>= validate_token_signature keys) ≡ let_through) ↔ (
          (token : List ℕ) × (set : List Key) × (get_bearer_token header ≡ ok token)
          × (fetched ≡ some set)
          × VerifiedBy token set)
  bearer_iff header panic e = (λ h. absurd (cc), λ (t, set, b, f, v). absurd (cc))
  bearer_iff header (err c) e = (λ h. absurd (cc), λ (t, set, b, f, v). absurd (cc))
  bearer_iff header (ok token) e = (
    λ h. let (set, f, v) = (validated_iff token fetched refl).0 h in (token, set, e, f, v),
    λ (t, set, b, f, v).
        (validated_iff token fetched refl).1
          (set, f, subst (λ x. VerifiedBy x set) (ok-eq t token (sym b ∙ e)) v),
  )

  -- The middleware of the policy store and the directory server lets a request through exactly
  -- where its header has a token that one of the fetched keys verifies.
  validate_token_middleware_iff :
      (header : List ℕ)
      → (validate_token_middleware keys header ≡ let_through) ↔ (
          (token : List ℕ) × (set : List Key) × (get_bearer_token header ≡ ok token)
          × (fetched ≡ some set)
          × VerifiedBy token set)
  unfolding validate_token_middleware
  validate_token_middleware_iff header = bearer_iff header (get_bearer_token header) refl

node_passage_iff :
    (header : List ℕ) (o : Outcome (List ℕ))
    → get_bearer_token header ≡ o
    → (node_passage o ≡ let_through) ↔ ((token : List ℕ) × (get_bearer_token header ≡ ok token))
node_passage_iff header panic e = (λ h. absurd (cc), λ (t, f). absurd (cc))
node_passage_iff header (err c) e = (λ h. absurd (cc), λ (t, f). absurd (cc))
node_passage_iff header (ok token) e = (λ h. (token, e), λ v. refl)

-- The middleware of a node lets every request through whose header has a token.
node_token_middleware_iff :
    (header : List ℕ)
    → (node_token_middleware header ≡ let_through)
      ↔ ((token : List ℕ) × (get_bearer_token header ≡ ok token))
unfolding node_token_middleware
node_token_middleware_iff header = node_passage_iff header (get_bearer_token header) refl
