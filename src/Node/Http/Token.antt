-- ===== src/Node/Http/Token.antt =====
-- `getBearerToken` takes the second of two words.
use mathlib.Core.Path.{subst}
use lohpi.Common.{
  ◌==◌, ==_iff, Bool-cases, ok, ℕ, ◌≡◌, refl, sym, ap, ◌∙◌, ◌↔◌, inl, inr, false, List, [], ◌∷◌,
  ◌++◌, arith,
}
use lohpi.Node.Http.{push_char, split_spaces, second_of_two, get_bearer_token}

abbrev pub NoSpaces : List ℕ → Type 0
NoSpaces [] = Unit
NoSpaces (c ∷ s) = ((c == 32) ≡ false) × NoSpaces s

split_spaces-word : (s : List ℕ) → NoSpaces s → split_spaces s ≡ s ∷ []
unfolding split_spaces
split_spaces-word [] h = refl
split_spaces-word (c ∷ s) (h, hs) = rw (h, split_spaces-word s hs) refl

split_spaces-two : (a b : List ℕ) → NoSpaces a → split_spaces (a ++ (32 ∷ b)) ≡ a ∷ split_spaces b
unfolding split_spaces
split_spaces-two [] b h = refl
split_spaces-two (c ∷ a) b (h, ha) = rw (h, split_spaces-two a b ha) refl

-- the words of a header, put together again
abbrev joined : List (List ℕ) → List ℕ
joined [] = []
joined (w ∷ []) = w
joined (w ∷ v ∷ ws) = w ++ (32 ∷ joined (v ∷ ws))

-- A header of two words, with one space between them, gives its second word.
get_bearer_token-two :
    (a b : List ℕ) → NoSpaces a → NoSpaces b → get_bearer_token (a ++ (32 ∷ b)) ≡ ok b
unfolding get_bearer_token
get_bearer_token-two a b ha hb = rw (split_spaces-two a b ha, split_spaces-word b hb) refl

abbrev AllWords : List (List ℕ) → Type 0
AllWords [] = Unit
AllWords (w ∷ ws) = NoSpaces w × AllWords ws

push_char-joined :
    (c : ℕ) (w : List ℕ) (ws : List (List ℕ)) → joined (push_char c (w ∷ ws)) ≡ c ∷ joined (w ∷ ws)
unfolding push_char
push_char-joined c w [] = refl
push_char-joined c w (v ∷ ws) = refl

-- splitting gives at least one word, no word has a space, and joining gives the text back
abbrev Splits : List ℕ → List (List ℕ) → Type 0
Splits s words =
    (w : List ℕ) × (ws : List (List ℕ)) × (words ≡ w ∷ ws)
    × AllWords (w ∷ ws)
    × (joined (w ∷ ws) ≡ s)

split_spaces-Splits : (s : List ℕ) → Splits s (split_spaces s)
unfolding split_spaces
split_spaces-Splits [] = ([], [], refl, (tt, tt), refl)
split_spaces-Splits (c ∷ s) =
    let (w, ws, e, (hw, hws), back) = split_spaces-Splits s in
    elim (Bool-cases (c == 32)) [
      | inl space ↦
          rw (space, e)
            ([], w ∷ ws, refl, (tt, (hw, hws)), rw ((==_iff c 32).0 space) (ap (λ t. 32 ∷ t) back))
      | inr letter ↦
          rw (letter, e)
            (c ∷ w, ws, refl, ((letter, hw), hws), push_char-joined c w ws ∙ ap (λ t. c ∷ t) back)
    ]

second_word :
    (s t : List ℕ) (words : List (List ℕ))
    → Splits s words
    → second_of_two words ≡ ok t
    → (a : List ℕ) × NoSpaces a × NoSpaces t × (s ≡ a ++ (32 ∷ t))
second_word s t [] (w, ws, e, h, back) found = absurd (cc)
second_word s t (a ∷ []) (w, ws, e, h, back) found = absurd (cc)
second_word s t (a ∷ b ∷ c ∷ r) (w, ws, e, h, back) found = absurd (cc)
second_word s t (a ∷ b ∷ []) (w, ws, e, h, back) found =
    let words : AllWords (a ∷ b ∷ []) = subst AllWords (sym e) h in
    let text : a ++ (32 ∷ b) ≡ s = ap joined e ∙ back in
    let same : b ≡ t = ground (arith, found) in
    (a, words.0, subst NoSpaces same words.1.0, sym text ∙ ap (λ x. a ++ (32 ∷ x)) same)

-- `getBearerToken` returns a token exactly where the header is two words with one space between
-- them, and then it is the second word. The first word is not looked at.
pub get_bearer_token_iff :
    (header t : List ℕ)
    → (get_bearer_token header ≡ ok t)
      ↔ ((a : List ℕ) × NoSpaces a × NoSpaces t × (header ≡ a ++ (32 ∷ t)))
unfolding get_bearer_token
get_bearer_token_iff header t = (
  λ found. second_word header t (split_spaces header) (split_spaces-Splits header) found,
  λ h. rw h.3 (get_bearer_token-two h.0 t h.1 h.2),
)
