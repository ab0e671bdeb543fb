-- ===== src/Api/Stream/Tokens.antt =====
-- The text that `streamCompletion` returns against the tokens that it reports on the way.
use llm_router_ui.Prelude.{
  ℕ, ◌≡◌, refl, sym, ap, ◌∙◌, true, Option, none, some, List, [], ◌∷◌, ◌++◌, Bool-cases,
  Option-cases, inl, inr, arith,
}
use mathlib.Core.List.{append-nil, append_assoc}
use llm_router_ui.Text.{Text, codes, same, is_empty, starts_with, trim}
use llm_router_ui.Types.{Provider, StreamDelta}
use llm_router_ui.Api.{Platform, Response, Result, returned, threw, Thrown}
use llm_router_ui.Api.Errors.{truthy}
use llm_router_ui.Api.Request.{Request, Options, fetch_ok, completion_request}
use llm_router_ui.Api.Split.{lines, split_blank}
use llm_router_ui.Api.Stream.{
  Event, token, model, Progress, unread, Scan, more, stopped, ◌>>=◌, report_model, report_token,
  handle_delta, scan_payload, scan_line, scan_lines, scan_frames, read_chunks, finish,
  read_response, stream_completion,
}

-- the tokens of a run of events, joined
unfoldable pub tokens : List Event → Text
tokens [] = []
tokens (token t ∷ es) = t ++ tokens es
tokens (model t ∷ es) = tokens es

tokens-append : (es fs : List Event) → tokens (es ++ fs) ≡ tokens es ++ tokens fs
unfolding tokens
tokens-append [] fs = refl
tokens-append (token t ∷ es) fs =
    ap (◌++◌ t) (tokens-append es fs) ∙ sym (append_assoc t (tokens es) (tokens fs))
tokens-append (model t ∷ es) fs = tokens-append es fs

abbrev IsTold : Progress → Type 0
IsTold p = p.full ≡ tokens p.events

abbrev AlwaysTold : Scan → Type 0
AlwaysTold (more p) = IsTold p
AlwaysTold (stopped p) = IsTold p

bind-AlwaysTold :
    (m : Scan) (k : Progress → Scan)
    → AlwaysTold m
    → ((p : Progress) → IsTold p → AlwaysTold (k p))
    → AlwaysTold (m >>= k)
bind-AlwaysTold (more p) k h f = f p h
bind-AlwaysTold (stopped p) k h f = h

report_model-IsTold : (o : Option Text) (p : Progress) → IsTold p → IsTold (report_model o p)
unfolding report_model tokens
report_model-IsTold none p h = h
report_model-IsTold (some t) p h =
    rw (tokens-append p.events (model t ∷ []), append-nil (tokens p.events)) h

report_token-IsTold : (o : Option Text) (p : Progress) → IsTold p → IsTold (report_token o p)
unfolding report_token tokens
report_token-IsTold none p h = h
report_token-IsTold (some t) p h =
    rw (tokens-append p.events (token t ∷ []), append-nil t) (ap (λ s. s ++ t) h)

handle_delta-IsTold :
    (chunk : StreamDelta) (p : Progress) → IsTold p → IsTold (handle_delta chunk p)
unfolding handle_delta
handle_delta-IsTold chunk p h =
    report_token-IsTold (truthy chunk.content) _ (report_model-IsTold (truthy chunk.model) p h)

module _ (platform : Platform) where
  open platform use {parse_delta, Decoder, decode, start}

  scan_payload-AlwaysTold :
      (p : Progress) (payload : Text) → IsTold p → AlwaysTold (scan_payload platform p payload)
  unfolding scan_payload
  scan_payload-AlwaysTold p payload h = elim (Bool-cases (same payload (codes "[DONE]"))) [
    | inl e ↦ rw (e, scan_payload) h
    | inr e ↦ elim (Bool-cases (is_empty payload)) [
      | inl blank ↦ rw (e, blank, scan_payload) h
      | inr full ↦ elim (Option-cases (parse_delta payload)) [
        | inl broken ↦ rw (e, full, broken, scan_payload) h
        | inr (chunk, parsed) ↦ rw (e, full, parsed, scan_payload) (handle_delta-IsTold chunk p h)
      ]
    ]
  ]

  scan_line-AlwaysTold :
      (p : Progress) (line : Text) → IsTold p → AlwaysTold (scan_line platform p line)
  unfolding scan_line
  scan_line-AlwaysTold p line h = elim (Bool-cases (starts_with (codes "data:") (trim line))) [
    | inl e ↦ rw (e, scan_line) (scan_payload-AlwaysTold p _ h)
    | inr e ↦ rw (e, scan_line) h
  ]

  scan_lines-AlwaysTold :
      (p : Progress) (ls : List Text) → IsTold p → AlwaysTold (scan_lines platform p ls)
  unfolding scan_lines
  scan_lines-AlwaysTold p [] h = h
  scan_lines-AlwaysTold p (l ∷ ls) h =
      bind-AlwaysTold _ _ (scan_line-AlwaysTold p l h) (λ q k. scan_lines-AlwaysTold q ls k)

  scan_frames-AlwaysTold :
      (p : Progress) (fs : List Text) → IsTold p → AlwaysTold (scan_frames platform p fs)
  unfolding scan_frames
  scan_frames-AlwaysTold p [] h = h
  scan_frames-AlwaysTold p (f ∷ fs) h =
      bind-AlwaysTold _ _ (scan_lines-AlwaysTold p (lines f) h)
        (λ q k. scan_frames-AlwaysTold q fs k)

  read_chunks-AlwaysTold :
      (d : Decoder) (buffer : Text) (p : Progress) (cs : List (List ℕ))
      → IsTold p
      → AlwaysTold (read_chunks platform d buffer p cs)
  unfolding read_chunks
  read_chunks-AlwaysTold d buffer p [] h = h
  read_chunks-AlwaysTold d buffer p (c ∷ cs) h =
      let frames = split_blank (buffer ++ (decode d c).0) in
      bind-AlwaysTold (scan_frames platform p frames.0)
        (λ q. read_chunks platform (decode d c).1 frames.1 q cs)
        (scan_frames-AlwaysTold p frames.0 h)
        (λ q k. read_chunks-AlwaysTold (decode d c).1 frames.1 q cs k)

  finish-tokens :
      (broken : Option Thrown) (m : Scan) (text : Text)
      → AlwaysTold m
      → (finish platform broken m).1 ≡ returned text
      → text ≡ tokens (finish platform broken m).0
  unfolding finish
  finish-tokens broken (stopped p) text h e = ground arith
  finish-tokens none (more p) text h e = ground arith
  finish-tokens (some t) (more p) text h e = cc

  IsTold-unread : IsTold unread
  unfolding tokens
  IsTold-unread = refl

  read_response-tokens :
      (r : Result Response) (text : Text)
      → (read_response platform r).1 ≡ returned text
      → text ≡ tokens (read_response platform r).0
  unfolding read_response
  read_response-tokens (threw e) text h = cc
  read_response-tokens (returned res) text h = elim (Option-cases res.body) [
    | inl missing ↦ absurd (ground arith)
    | inr (body, found) ↦
        rw (found, read_response)
          (finish-tokens body.broken _ text
            (read_chunks-AlwaysTold start [] unread body.chunks IsTold-unread)
            (rw (found, read_response) at h))
  ]

  -- A stream that ends well returns exactly the tokens that it reported, joined in their order.
  pub stream_completion-tokens :
      (fetch : Request → Result Response) (provider : Provider) (options : Options) (text : Text)
      → (stream_completion platform fetch provider options).1 ≡ returned text
      → text ≡ tokens (stream_completion platform fetch provider options).0
  unfolding stream_completion
  stream_completion-tokens fetch provider options text e =
      read_response-tokens (fetch_ok platform fetch (completion_request provider options true)) text
        e
