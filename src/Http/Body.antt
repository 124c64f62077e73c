-- ===== src/Http/Body.antt =====
-- helpers/helpers.go: `DecodeBodyJSON`. The JSON decoder on the body of at most `max_body_bytes` is a
-- parameter: what its first call gives, and whether its second call gives io.EOF; so is what
-- fmt.Sprintf writes for %d and %q. Texts are code points.
pub mod Judged
use vaulthook.Prelude.{
  ℕ, ◌+◌, ◌≡◌, ◌≢◌, refl, sym, ◌∙◌, ap, Bool, true, false, false≢true, not, ◌&&◌, Option, none,
  some, List, [], ◌∷◌, ◌++◌, Text, codes, text_eq, trim_space, leb, ◌==◌, map, if◌then◌else◌, arith,
  Bool-cases, Option-cases, inl, inr,
}

abbrev pub max_body_bytes : ℕ
max_body_bytes = 1048576

-- The errors that the switch tells apart: by errors.As and errors.Is, and any other.
pub data DecodeKind : Type 0 where
  syntax_error : ℕ → DecodeKind
  unexpected_eof : DecodeKind
  unmarshal_type_error : Text → ℕ → DecodeKind
  eof : DecodeKind
  max_bytes_error : ℕ → DecodeKind
  plain : DecodeKind

-- An error of the decoder, with the text of err.Error().
pub record DecodeError : Type 0 where
  pub kind : DecodeKind
  pub text : Text

pub data Decoded (A : Type 0) : Type 0 where
  value : A → Decoded A
  failure : DecodeError → Decoded A

pub record Decoder (A : Type 0) : Type 0 where
  pub first : Text → Decoded A
  pub second_is_eof : Text → Bool
  pub print : ℕ → Text
  pub quote : Text → Text

-- A request's Content-Type header, empty where it is missing, and its body.
pub record Request : Type 0 where
  pub content_type : Text
  pub body : Text

pub data Parsed (A : Type 0) : Type 0 where
  parsed : A → Parsed A
  malformed : ℕ → Text → Parsed A

-- `strings.Split(s, ";")[0]`
first_part : Text → Text
first_part [] = []
first_part (c ∷ cs) = let rest = first_part cs in if c == b';' then [] else c ∷ rest

-- strings.ToLower, as far as it gives ASCII: the capitals, İ and the Kelvin sign.
abbrev lower : ℕ → ℕ
lower c =
    if leb b'A' c && leb c b'Z'
    then c + 32
    else if c == 0x130
    then b'i'
    else if c == 0x212A
    then b'k'
    else c

unfoldable pub media_type : Text → Text
unfolding first_part
media_type s = map lower (trim_space (first_part s))

-- `strings.HasPrefix` and `strings.TrimPrefix`
pub strip_prefix : Text → Text → Option Text
strip_prefix [] s = some s
strip_prefix (p ∷ ps) [] = none
strip_prefix (p ∷ ps) (c ∷ cs) = let rest = strip_prefix ps cs in if p == c then rest else none

abbrev json_type : Text
json_type = codes "application/json"

abbrev pub accepts_type : Text → Bool
accepts_type [] = true
accepts_type (c ∷ cs) = text_eq (media_type (c ∷ cs)) json_type

module _ {A : Type 0} (json : Decoder A) where
  -- The last cases of the switch: io.EOF, the size, and any other.
  abbrev pub malformed_end : DecodeKind → Text → Parsed A
  malformed_end eof text = malformed 400 (codes "Request body must not be empty")
  malformed_end (max_bytes_error limit) text =
      malformed 413
        (codes "Request body must not be larger than " ++ json.print limit ++ codes " bytes")
  malformed_end _ text = malformed 400 text

  -- The case of an unknown field, which the error's text tells.
  unfoldable pub malformed_field : DecodeError → Parsed A
  unfolding strip_prefix
  malformed_field e = elim (strip_prefix (codes "json: unknown field ") e.text) [
    | some name ↦ malformed 400 (codes "Request body contains unknown field " ++ name)
    | none ↦ malformed_end e.kind e.text
  ]

  -- The switch over the error of the first call.
  unfoldable pub malformed_request : DecodeKind → DecodeError → Parsed A
  unfolding malformed_field
  malformed_request (syntax_error offset) e = malformed 400 (
      codes "Request body contains badly-formed JSON (at position "
      ++ json.print offset
      ++ codes ")")
  malformed_request unexpected_eof e =
      malformed 400 (codes "Request body contains badly-formed JSON")
  malformed_request (unmarshal_type_error field offset) e = malformed 400 (
      codes "Request body contains an invalid value for the "
      ++ json.quote field
      ++ codes " field (at position "
      ++ json.print offset
      ++ codes ")")
  malformed_request _ e = malformed_field e

  -- `DecodeBodyJSON`
  unfoldable pub decode_body : Request → Parsed A
  unfolding malformed_request media_type
  decode_body r =
      if accepts_type r.content_type
      then elim (json.first r.body) [
        | failure e ↦ malformed_request e.kind e
        | value a ↦
            if json.second_is_eof r.body
            then parsed a
            else malformed 400 (codes "Request body must only contain a single JSON object")
      ]
      else malformed 415 (codes "Content-Type header is not application/json")
