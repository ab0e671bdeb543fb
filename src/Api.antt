-- ===== src/Api.antt =====
-- frontend/src/lib/api.ts: the client of the OpenAI-compatible API.
-- The network is an argument: `fetch` is a function from requests to what comes back. So are the
-- platform's `JSON.parse`, at the types that it is cast to, and `TextDecoder`.
pub mod Url
pub mod Errors
pub mod Request
pub mod Split
pub mod Stream
mod Tests
use llm_router_ui.Prelude.{ℕ, ◌≡◌, ◌&&◌, Bool, Option, none, some, List, [], ◌++◌, leb}
use llm_router_ui.Text.{Text}
use llm_router_ui.Types.{StreamDelta, CompletionResponse, ModelInfo}

-- The shapes of `{error: ...}` that `parseError` tells apart: a text, an object with perhaps a
-- message, or anything else.
pub data ErrorField : Type 0 where
  plain : Text → ErrorField
  detailed : Option Text → ErrorField
  absent : ErrorField

pub record ErrorBody : Type 0 where
  pub error : ErrorField
  pub message : Option Text

-- What an `await` of the client can throw: the class of the value decides how it is reported.
pub data Thrown : Type 0 where
  api_error : Text → Option ℕ → Thrown
  type_error : Text → Thrown
  abort_error : Thrown
  other_error : Text → Thrown
  not_an_error : Thrown

pub data Result {ℓ} (A : Type ℓ) : Type ℓ where
  returned : A → Result A
  threw : Thrown → Result A

infixl 5 ◌>>=◌
abbrev pub ◌>>=◌ {ℓ κ} : {A : Type ℓ} {B : Type κ} → Result A → (A → Result B) → Result B
returned a >>= f = f a
threw e >>= f = threw e

pub record Platform : Type 1 where
  -- `JSON.parse` and the property reads of each use. Where what is thrown is caught at once it is
  -- `none`; `parse_models` gives `data.data`.
  pub parse_error_body : Text → Option ErrorBody
  pub parse_delta : Text → Option StreamDelta
  pub parse_models : Text → Result (Option (List ModelInfo))
  pub parse_response : Text → Result CompletionResponse
  -- `TextDecoder` with `stream: true` keeps the bytes of an unfinished character
  pub Decoder : Type 0
  pub start : Decoder
  pub decode : Decoder → List ℕ → Text × Decoder
  -- decoding goes byte by byte
  pub decode-nil : (d : Decoder) → decode d [] ≡ ([], d)
  pub decode-append :
      (d : Decoder) (a b : List ℕ)
      → decode d (a ++ b)
        ≡ ((decode d a).0 ++ (decode (decode d a).1 b).0, (decode (decode d a).1 b).1)

-- The body of a response as its reader delivers it: chunks of bytes, then the end of the stream
-- or a rejected read.
pub record Body : Type 0 where
  pub chunks : List (List ℕ)
  pub broken : Option Thrown

-- `text` is what `res.text()` resolves to, `none` if it is rejected; `json` reads the same text.
pub record Response : Type 0 where
  pub status : ℕ
  pub text : Result Text
  pub body : Option Body

-- `res.ok`
unfoldable pub is_ok : Response → Bool
is_ok res = leb 200 res.status && leb res.status 299
