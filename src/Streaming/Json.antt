-- ===== src/Streaming/Json.antt =====
-- `DecodeJSONBody`, `CopyHeaders` and `SetHeaders` of core/util/util.go. The decoder of encoding/json
-- is a parameter: what its two calls of `Decode` return.
use lohpi.Common.{if◌then◌else◌, assign, ℕ, String, ◌⊎◌, inl, inr, List, [], ◌∷◌, str_eq}

-- the error of the first call of `Decode`, by the case that it meets
pub data DecodeError : Type 0 where
  syntax_error unexpected_eof type_error unknown_field empty_body too_large other_cause :
      DecodeError

-- what the second call of `Decode` meets
pub data Rest : Type 0 where
  at_end more : Rest

pub record JsonRequest (A : Type 0) : Type 0 where
  pub content_type : String
  pub first : A ⊎ DecodeError
  pub second : Rest

-- a value, a `MalformedParserReponse` by its status, or the error of the decoder
pub data JsonResult (A : Type 0) : Type 0 where
  parsed : A → JsonResult A
  malformed : ℕ → JsonResult A
  unparsed : JsonResult A

module _ {A : Type 0} where
  -- the switch over the errors
  abbrev pub classify : DecodeError → JsonResult A
  classify too_large = malformed 413
  classify other_cause = unparsed
  classify _ = malformed 400

  abbrev pub single : A → Rest → JsonResult A
  single a at_end = parsed a
  single a more = malformed 400

  abbrev pub decode_first : A ⊎ DecodeError → Rest → JsonResult A
  decode_first (inl a) rest = single a rest
  decode_first (inr e) rest = classify e

  -- `DecodeJSONBody`
  unfoldable pub decode_json_body : String → JsonRequest A → JsonResult A
  decode_json_body content_type r =
      if str_eq r.content_type content_type then decode_first r.first r.second else malformed 415

-- `CopyHeaders`, and its copy in core/directoryserver/http.go
unfoldable pub copy_headers : List (String × List String) → List (String × List String)
copy_headers [] = []
copy_headers ((k, v) ∷ h) = (k, v) ∷ copy_headers h

-- `SetHeaders`: the headers of the source, assigned in the destination
unfoldable pub set_headers :
    List (String × List String) → List (String × List String) → List (String × List String)
set_headers [] dest = dest
set_headers ((k, v) ∷ src) dest = set_headers src (assign k v dest)
