-- ===== src/Api/Stream/Chunks.antt =====
-- How a network cuts a response into chunks has no influence on what is read.
use llm_router_ui.Prelude.{ℕ, ◌≡◌, refl, sym, ap, ◌∙◌, List, [], ◌∷◌, ◌++◌}
use mathlib.Core.List.{append-nil, append_assoc}
use mathlib.Core.Path.{fun_ext}
use llm_router_ui.Text.{Text}
use llm_router_ui.Api.{Platform, Body}
use llm_router_ui.Api.Split.{split_blank, split_blank-append, split_blank-rest, lines}
use llm_router_ui.Api.Stream.{
  Progress, Scan, more, stopped, ◌>>=◌, scan_frames, scan_lines, read_chunks, read_body, unread,
}

abbrev pub concat : List (List ℕ) → List ℕ
concat [] = []
concat (c ∷ cs) = c ++ concat cs

bind_assoc : (m : Scan) (f g : Progress → Scan) → (m >>= f >>= g) ≡ (m >>= λ p. f p >>= g)
bind_assoc (more p) f g = refl
bind_assoc (stopped p) f g = refl

pub no_frames : (split_blank []).0 ≡ []
unfolding split_blank
no_frames = refl

module _ (platform : Platform) where
  open platform use {Decoder, start, decode, decode-nil, decode-append}

  scan_frames-append :
      (p : Progress) (fs gs : List Text)
      → scan_frames platform p (fs ++ gs)
        ≡ (scan_frames platform p fs >>= λ q. scan_frames platform q gs)
  unfolding scan_frames
  scan_frames-append p [] gs = refl
  scan_frames-append p (f ∷ fs) gs =
      ap (λ k. scan_lines platform p (lines f) >>= k) (fun_ext (λ q. scan_frames-append q fs gs))
      ∙ sym (
          bind_assoc (scan_lines platform p (lines f)) (λ q. scan_frames platform q fs)
            (λ q. scan_frames platform q gs))

  -- the frames of a chunk, then those of what is left of it with the rest
  frames_append :
      (d : Decoder) (buffer : Text) (a b : List ℕ)
      → (split_blank (buffer ++ (decode d (a ++ b)).0)).0
        ≡ (split_blank (buffer ++ (decode d a).0)).0
          ++ (split_blank
              ((split_blank (buffer ++ (decode d a).0)).1 ++ (decode (decode d a).1 b).0)).0
  frames_append d buffer a b =
      let t = (decode d a).0 in
      let t' = (decode (decode d a).1 b).0 in
      rw (decode-append d a b) (
        ap (λ s. (split_blank s).0) (sym (append_assoc buffer t t'))
        ∙ ap (λ (x : List Text × Text). x.0) (split_blank-append (buffer ++ t) t'))

  -- Reading chunk by chunk is reading the frames of the whole text.
  pub read_chunks_whole :
      (d : Decoder) (buffer : Text) (p : Progress) (cs : List (List ℕ))
      → (split_blank buffer).0 ≡ []
      → read_chunks platform d buffer p cs
        ≡ scan_frames platform p (split_blank (buffer ++ (decode d (concat cs)).0)).0
  unfolding read_chunks
  read_chunks_whole d buffer p [] h = rw (decode-nil d, append-nil buffer, h)
  read_chunks_whole d buffer p (c ∷ cs) h =
      let t = (decode d c).0 in
      let d' = (decode d c).1 in
      let t' = (decode d' (concat cs)).0 in
      let F = (split_blank (buffer ++ t)).0 in
      let R = (split_blank (buffer ++ t)).1 in
      ap (λ k. scan_frames platform p F >>= k)
        (fun_ext (λ q. read_chunks_whole d' R q cs (split_blank-rest (buffer ++ t))))
      ∙ (sym (scan_frames-append p F (split_blank (R ++ t')).0)
          ∙ ap (λ (fs : List Text). scan_frames platform p fs)
              (sym (frames_append d buffer c (concat cs))))

  -- Two responses with the same bytes and the same end, cut into chunks in any two ways, give the
  -- same events in the same order and the same result.
  pub chunking_irrelevant :
      (a b : Body)
      → concat a.chunks ≡ concat b.chunks
      → a.broken ≡ b.broken
      → read_body platform a ≡ read_body platform b
  unfolding read_body
  chunking_irrelevant a b bytes ending =
      rw
        (
          read_chunks_whole start [] unread a.chunks no_frames,
          read_chunks_whole start [] unread b.chunks no_frames,
          bytes,
          ending,
        )
        refl
