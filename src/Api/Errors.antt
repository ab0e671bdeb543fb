-- ===== src/Api/Errors.antt =====
-- `parseError` of frontend/src/lib/api.ts: the message of a response that is not ok.
use llm_router_ui.Prelude.{
  ℕ, ◌≡◌, ◌≢◌, inl, inr, false, Option, none, some, [], ◌∷◌, ◌++◌, take, suc, Option-cases,
  Bool-cases, arith, if◌then◌else◌, or_else,
}
use llm_router_ui.Text.{Text, codes, is_empty}
use llm_router_ui.Text.Decimal.{decimal}
use llm_router_ui.Api.{
  Platform, Response, ErrorBody, ErrorField, plain, detailed, absent, Result, returned, threw,
}

-- `res.text().catch(() => '')`
unfoldable pub text_or_empty : Result Text → Text
text_or_empty (returned text) = text
text_or_empty (threw e) = []

-- a text is truthy unless it is missing or empty
unfoldable pub truthy : Option Text → Option Text
unfolding is_empty
truthy none = none
truthy (some t) = if is_empty t then none else some t

-- the message of the parsed body, if one of the known shapes has one
unfoldable pub known_message : ErrorField → Option Text → Option Text
unfolding truthy
known_message (plain t) message = some t
known_message (detailed m) message = elim (truthy m) [ some t ↦ some t | none ↦ truthy message ]
known_message absent message = truthy message

unfoldable pub request_failed : ℕ → Text
request_failed status = codes "Request failed with status " ++ decimal status

truthy-ne-nil : (o : Option Text) → truthy o ≢ some []
unfolding truthy is_empty
truthy-ne-nil none = cc
truthy-ne-nil (some []) = cc
truthy-ne-nil (some (c ∷ s)) = ground arith

known_message-eq-nil :
    (f : ErrorField) (m : Option Text) (d : Text)
    → d ≢ []
    → or_else (known_message f m) d ≡ []
    → f ≡ plain []
unfolding known_message
known_message-eq-nil (plain t) m d h e = ground arith
known_message-eq-nil (detailed n) m d h e = ground (arith, truthy-ne-nil n, truthy-ne-nil m)
known_message-eq-nil absent m d h e = ground (arith, truthy-ne-nil m)

take-ne-nil : (n : ℕ) (s : Text) → is_empty s ≡ false → take (suc n) s ≢ []
unfolding is_empty
take-ne-nil n [] h = cc
take-ne-nil n (c ∷ s) h = cc

request_failed-ne-nil : (n : ℕ) → request_failed n ≢ []
unfolding request_failed
request_failed-ne-nil n = cc

module _ (platform : Platform) where
  open platform use {parse_error_body}

  unfoldable pub message_of : Text → Text
  unfolding known_message
  message_of text = elim (parse_error_body text) [
    | none ↦ take 300 text
    | some body ↦ or_else (known_message body.error body.message) (take 300 text)
  ]

  unfoldable pub parse_error : Response → Text
  unfolding text_or_empty message_of request_failed is_empty
  parse_error res =
      let text = text_or_empty res.text in
      if is_empty text then request_failed res.status else message_of text

  message_of-eq-nil :
      (text : Text)
      → is_empty text ≡ false
      → message_of text ≡ []
      → (body : ErrorBody) × (parse_error_body text ≡ some body) × (body.error ≡ plain [])
  unfolding message_of
  message_of-eq-nil text full e = elim (Option-cases (parse_error_body text)) [
    | inl broken ↦ absurd (take-ne-nil 299 text full (rw (broken, message_of) at e))
    | inr (body, parsed) ↦ (
      body,
      parsed,
      known_message-eq-nil body.error body.message _ (take-ne-nil 299 text full)
          (rw (parsed, message_of) at e),
    )
  ]

  -- The message of a failed request is never empty, but for a body whose `error` is the empty
  -- string.
  pub parse_error-eq-nil :
      (res : Response)
      → parse_error res ≡ []
      → (body : ErrorBody) × (parse_error_body (text_or_empty res.text) ≡ some body)
        × (body.error ≡ plain [])
  unfolding parse_error
  parse_error-eq-nil res e = elim (Bool-cases (is_empty (text_or_empty res.text))) [
    | inl blank ↦ absurd (request_failed-ne-nil res.status (rw (blank, parse_error) at e))
    | inr full ↦ message_of-eq-nil (text_or_empty res.text) full (rw (full, parse_error) at e)
  ]
