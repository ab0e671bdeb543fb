-- ===== src/Chats/Elsewhere.antt =====
-- A completion of frontend/src/store/useChats.ts whose message is not on the screen, as after
-- `selectChat` or `newChat`.
use llm_router_ui.Prelude.{◌≡◌, refl, ap, ap₂, false, Option, none, List, [], ◌∷◌, ◌++◌, map, All}
use mathlib.Core.List.{append_assoc, append-nil}
use llm_router_ui.Text.{Text, same}
use llm_router_ui.Types.{Message}
use llm_router_ui.Idb.{ObjectStore}
use llm_router_ui.Api.Stream
use llm_router_ui.Api.Stream.{Event}
use llm_router_ui.Api.Stream.Tokens.{tokens}
use llm_router_ui.Chats.{World, set_store}
use llm_router_ui.Chats.Run.{Run, flushed, flush, on_event, on_events}
use llm_router_ui.Chats.Settle.{last_model}

flushed_other :
    (run : Run) (error : Option Text) (m : Message)
    → same m.id run.assistant.id ≡ false
    → flushed run error m ≡ m
unfolding flushed
flushed_other run error m h = rw h

map-flushed_other :
    (run : Run) (error : Option Text) (ms : List Message)
    → All (λ m. same m.id run.assistant.id ≡ false) ms
    → map (flushed run error) ms ≡ ms
map-flushed_other run error [] h = refl
map-flushed_other run error (m ∷ ms) h =
    ap₂ ◌∷◌ (flushed_other run error m h.0) (map-flushed_other run error ms h.1)

module _ (idb : ObjectStore) where
  flush_absent :
      (w : World idb) (run : Run) (error : Option Text)
      → All (λ m. same m.id run.assistant.id ≡ false) w.messages
      → flush idb w run error ≡ w
  unfolding flush
  flush_absent w run error h =
      ap (λ ms. set_store idb w (record w.store { messages = ms }))
        (map-flushed_other run error w.messages h)

  -- While its message is not on the screen, a completion changes nothing of the store or of the
  -- database, whatever it reports; what it reports is kept whole for the end.
  pub on_events_elsewhere :
      (es : List Event) (w : World idb) (run : Run)
      → All (λ m. same m.id run.assistant.id ≡ false) w.messages
      → on_events idb (w, run) es ≡ (
        w,
        record run {
          accumulated = run.accumulated ++ tokens es;
          routed_model = last_model run.routed_model es;
        },
      )
  unfolding on_events on_event tokens last_model
  on_events_elsewhere [] w run h = rw (append-nil run.accumulated)
  on_events_elsewhere (Stream.token t ∷ es) w run h =
      let next = record run { accumulated = run.accumulated ++ t } in
      rw (flush_absent w next none h, ← append_assoc run.accumulated t (tokens es))
        (on_events_elsewhere es w next h)
  on_events_elsewhere (Stream.model n ∷ es) w run h =
      let next = record run { routed_model = n } in
      rw (flush_absent w next none h) (on_events_elsewhere es w next h)
