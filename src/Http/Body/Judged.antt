-- ===== src/Http/Body/Judged.antt =====
-- The outcomes of `DecodeBodyJSON` (helpers/helpers.go).
use vaulthook.Prelude.{
  ℕ, ◌≡◌, ◌≢◌, refl, true, false, Text, codes, arith, Bool-cases, Option-cases, inl, inr, ◌⊎◌,
}
use vaulthook.Http.Body.{
  DecodeKind, syntax_error, unexpected_eof, unmarshal_type_error, eof, max_bytes_error, plain,
  DecodeError, Decoded, value, failure, Decoder, Request, Parsed, parsed, malformed, accepts_type,
  decode_body, malformed_request, malformed_field, strip_prefix, malformed_end,
}

Decoded-cases :
    {A : Type 0} (d : Decoded A) → ((e : DecodeError) × (d ≡ failure e)) ⊎ ((a : A) × (d ≡ value a))
Decoded-cases (failure e) = inl (e, refl)
Decoded-cases (value a) = inr (a, refl)

-- The four outcomes of a request's body.
module _ {A : Type 0} (json : Decoder A) (r : Request) where
  pub data Judged : Parsed A → Type 0 where
    accepted :
        (a : A)
        → accepts_type r.content_type ≡ true
        → json.first r.body ≡ value a
        → json.second_is_eof r.body ≡ true
        → Judged (parsed a)
    unsupported : (text : Text) → accepts_type r.content_type ≡ false → Judged (malformed 415 text)
    too_large :
        (text : Text) (limit : ℕ) (e : DecodeError)
        → accepts_type r.content_type ≡ true
        → json.first r.body ≡ failure e
        → e.kind ≡ max_bytes_error limit
        → Judged (malformed 413 text)
    undecodable :
        (text : Text) (e : DecodeError)
        → accepts_type r.content_type ≡ true
        → json.first r.body ≡ failure e
        → Judged (malformed 400 text)
    more_than_one :
        (text : Text)
        → accepts_type r.content_type ≡ true
        → json.second_is_eof r.body ≡ false
        → Judged (malformed 400 text)

  module _ (t : accepts_type r.content_type ≡ true) where
    malformed_end-Judged :
        (kind : DecodeKind) (e : DecodeError)
        → json.first r.body ≡ failure e
        → e.kind ≡ kind
        → Judged (malformed_end json kind e.text)
    malformed_end-Judged (syntax_error n) e f k = undecodable _ e t f
    malformed_end-Judged unexpected_eof e f k = undecodable _ e t f
    malformed_end-Judged (unmarshal_type_error a b) e f k = undecodable _ e t f
    malformed_end-Judged eof e f k = undecodable _ e t f
    malformed_end-Judged (max_bytes_error limit) e f k = too_large _ limit e t f k
    malformed_end-Judged plain e f k = undecodable _ e t f

    malformed_field-Judged :
        (e : DecodeError) → json.first r.body ≡ failure e → Judged (malformed_field json e)
    unfolding malformed_field
    malformed_field-Judged e f =
        elim (Option-cases (strip_prefix (codes "json: unknown field ") e.text)) [
          | inl h ↦ simp (h, malformed_field) (malformed_end-Judged e.kind e f refl)
          | inr (name, h) ↦ simp (h, malformed_field) (undecodable _ e t f)
        ]

    malformed_request-Judged :
        (kind : DecodeKind) (e : DecodeError)
        → json.first r.body ≡ failure e
        → Judged (malformed_request json kind e)
    unfolding malformed_request
    malformed_request-Judged (syntax_error n) e f = undecodable _ e t f
    malformed_request-Judged unexpected_eof e f = undecodable _ e t f
    malformed_request-Judged (unmarshal_type_error a b) e f = undecodable _ e t f
    malformed_request-Judged eof e f = malformed_field-Judged e f
    malformed_request-Judged (max_bytes_error n) e f = malformed_field-Judged e f
    malformed_request-Judged plain e f = malformed_field-Judged e f

  -- A body is accepted only when its media type is JSON or not named, it decodes and nothing follows
  -- the decoded value; another media type gives 415, a body over the limit 413, an error of the
  -- decoder or a second value 400, and there is no other outcome.
  pub decode_body-Judged : Judged (decode_body json r)
  unfolding decode_body
  decode_body-Judged = elim (Bool-cases (accepts_type r.content_type)) [
    | inl t ↦ elim (Decoded-cases (json.first r.body)) [
      | inl (e, f) ↦ simp (t, f, decode_body) (malformed_request-Judged t e.kind e f)
      | inr (a, f) ↦ elim (Bool-cases (json.second_is_eof r.body)) [
        | inl s ↦ simp (t, f, s, decode_body) (accepted a t f s)
        | inr s ↦ simp (t, f, s, decode_body) (more_than_one _ t s)
      ]
    ]
    | inr t ↦ simp (t, decode_body) (unsupported _ t)
  ]

abbrev pub DeclinesBody : {A : Type 0} → Parsed A → Type 0
DeclinesBody (parsed a) = Unit
DeclinesBody (malformed status text) = status ≢ 200

-- A refused body is no success.
pub Judged-declines :
    {A : Type 0} (json : Decoder A) (r : Request) (p : Parsed A) → Judged json r p → DeclinesBody p
Judged-declines json r _ (accepted a t f s) = tt
Judged-declines json r _ (unsupported x t) = omega arith
Judged-declines json r _ (too_large x n e t f k) = omega arith
Judged-declines json r _ (undecodable x e t f) = omega arith
Judged-declines json r _ (more_than_one x t s) = omega arith
