-- ===== src/Api/Stream.antt =====
-- `streamCompletion` of frontend/src/lib/api.ts: the loop that reads the chunks of a response,
-- cuts them into frames and lines, and reports the tokens and the model.
-- The calls of `onToken` and `onModel` are events in the order in which they are made.
pub mod Chunks
pub mod Tokens
pub mod Crlf
use llm_router_ui.Prelude.{
  ℕ, ◌≡◌, Bool, true, false, Option, none, some, List, [], ◌∷◌, ◌++◌, drop, if◌then◌else◌,
}
use llm_router_ui.Text.{Text, codes, same, is_empty, starts_with, trim}
use llm_router_ui.Types.{Provider, StreamDelta}
use llm_router_ui.Api.{Platform, Response, Body, Result, returned, threw, Thrown, api_error}
use llm_router_ui.Api.Errors.{truthy}
use llm_router_ui.Api.Request.{Request, Options, fetch_ok, completion_request}
use llm_router_ui.Api.Split.{split_blank, lines}

pub data Event : Type 0 where
  token : Text → Event
  model : Text → Event

pub record Progress : Type 0 where
  pub full : Text
  pub events : List Event

abbrev pub unread : Progress
unread = record { full = []; events = [] }

-- at the end mark the function returns, whatever is still unread
pub data Scan : Type 0 where
  more : Progress → Scan
  stopped : Progress → Scan

infixl 5 ◌>>=◌
abbrev pub ◌>>=◌ : Scan → (Progress → Scan) → Scan
more p >>= k = k p
stopped p >>= k = stopped p

unfoldable pub report_model : Option Text → Progress → Progress
report_model none p = p
report_model (some t) p = record p { events = p.events ++ model t ∷ [] }

unfoldable pub report_token : Option Text → Progress → Progress
report_token none p = p
report_token (some t) p = record { full = p.full ++ t; events = p.events ++ token t ∷ [] }

unfoldable pub handle_delta : StreamDelta → Progress → Progress
unfolding truthy report_model report_token
handle_delta chunk p = report_token (truthy chunk.content) (report_model (truthy chunk.model) p)

module _ (platform : Platform) where
  open platform use {parse_delta, Decoder, start, decode}

  unfoldable pub scan_payload : Progress → Text → Scan
  unfolding handle_delta
  scan_payload p payload =
      if same payload (codes "[DONE]")
      then stopped p
      else if is_empty payload
      then more p
      else elim (parse_delta payload) [ none ↦ more p | some chunk ↦ more (handle_delta chunk p) ]

  unfoldable pub scan_line : Progress → Text → Scan
  unfolding scan_payload
  scan_line p line =
      let trimmed = trim line in
      if starts_with (codes "data:") trimmed then scan_payload p (trim (drop 5 trimmed)) else more p

  unfoldable pub scan_lines : Progress → List Text → Scan
  unfolding scan_line
  scan_lines p [] = more p
  scan_lines p (line ∷ rest) = do q ← scan_line p line; scan_lines q rest

  unfoldable pub scan_frames : Progress → List Text → Scan
  unfolding scan_lines
  scan_frames p [] = more p
  scan_frames p (frame ∷ rest) = do q ← scan_lines p (lines frame); scan_frames q rest

  unfoldable pub read_chunks : Decoder → Text → Progress → List (List ℕ) → Scan
  unfolding scan_frames
  read_chunks decoder buffer p [] = more p
  read_chunks decoder buffer p (value ∷ rest) =
      let decoded = decode decoder value in
      let frames = split_blank (buffer ++ decoded.0) in
      do q ← scan_frames p frames.0; read_chunks decoded.1 frames.1 q rest

  -- at the end of the stream what is left in the buffer is dropped
  unfoldable pub finish : Option Thrown → Scan → List Event × Result Text
  finish broken (stopped p) = (p.events, returned p.full)
  finish none (more p) = (p.events, returned p.full)
  finish (some e) (more p) = (p.events, threw e)

  unfoldable pub read_body : Body → List Event × Result Text
  unfolding read_chunks finish
  read_body body = finish body.broken (read_chunks start [] unread body.chunks)

  unfoldable pub read_response : Result Response → List Event × Result Text
  unfolding read_body
  read_response (threw e) = ([], threw e)
  read_response (returned res) = elim res.body [
    | none ↦ ([], threw (api_error (codes "Response body is empty") none))
    | some body ↦ read_body body
  ]

  unfoldable pub stream_completion :
      (Request → Result Response) → Provider → Options → List Event × Result Text
  unfolding read_response fetch_ok
  stream_completion fetch provider options =
      read_response (fetch_ok platform fetch (completion_request provider options true))
