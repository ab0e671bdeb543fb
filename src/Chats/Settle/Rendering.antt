-- ===== src/Chats/Settle/Rendering.antt =====
-- The world while a completion of frontend/src/store/useChats.ts is being rendered.
use llm_router_ui.Prelude.{
  ◌≡◌, refl, ap, ap₂, ◌∙◌, false, Option, none, some, List, [], ◌∷◌, ◌++◌, map, All, arith,
}
use mathlib.Core.List.{append_assoc, append-nil}
use llm_router_ui.Text.{Text, same}
use llm_router_ui.Text.Laws.{same_refl}
use llm_router_ui.Types.{Message}
use llm_router_ui.Idb.{ObjectStore}
use llm_router_ui.Api.Errors.{truthy}
use llm_router_ui.Api.Stream
use llm_router_ui.Api.Stream.{Event, stream_completion}
use llm_router_ui.Api.Stream.Tokens.{tokens}
use llm_router_ui.Chats.{World, set_store}
use llm_router_ui.Chats.Run.{
  Run, Ticks, answer, placeholder, flushed, start, flush, on_event, on_events,
}
use llm_router_ui.Chats.Settle.{last_model}

-- an error that is set replaces, and one that is not leaves
abbrev pub or_some : Option Text → Option Text → Option Text
or_some none old = old
or_some (some e) old = some e

placeholder-id :
    (chat_id model : Text) (ticks : Ticks)
    → (placeholder chat_id model ticks).id ≡ ticks.assistant_id
unfolding placeholder
placeholder-id chat_id model ticks = refl

module _ (idb : ObjectStore) where
  module _ (w : World idb) (chat_id model : Text) (ticks : Ticks) where
    abbrev pub run_at : Text → Text → Run
    run_at content routed = record {
      chat_id = chat_id;
      assistant = placeholder chat_id model ticks;
      own_controller = w.next_controller;
      accumulated = content;
      routed_model = routed;
    }

    -- the world while the answer stands at some content
    abbrev pub shown : Text → Text → World idb
    shown content routed =
        let begun = (start idb w chat_id model ticks).0 in
        set_store idb begun
          (record begun.store { messages = w.messages ++ answer (run_at content routed) ∷ [] })

    pub start-shown : start idb w chat_id model ticks ≡ (shown [] model, run_at [] model)
    unfolding start answer placeholder
    start-shown = refl

    module _ (fresh : All (λ m. same m.id ticks.assistant_id ≡ false) w.messages) where
      flushed_ne :
          (run : Run) (error : Option Text) (m : Message)
          → same m.id run.assistant.id ≡ false
          → flushed run error m ≡ m
      unfolding flushed
      flushed_ne run error m h = rw h

      pub flushed_self :
          (content routed content' routed' : Text) (error : Option Text)
          → flushed (run_at content' routed') error (answer (run_at content routed))
            ≡ record (answer (run_at content' routed')) { error = or_some (truthy error) none }
      unfolding flushed answer placeholder
      flushed_self content routed content' routed' error =
          rw (same_refl ticks.assistant_id) (ground arith)

      pub map-flushed :
          (run : Run) (error : Option Text) (ms : List Message) (m : Message)
          → run.assistant.id ≡ ticks.assistant_id
          → All (λ m. same m.id ticks.assistant_id ≡ false) ms
          → map (flushed run error) (ms ++ m ∷ []) ≡ ms ++ flushed run error m ∷ []
      map-flushed run error [] m e h = refl
      map-flushed run error (k ∷ ms) m e h =
          ap₂ ◌∷◌ (flushed_ne run error k (rw e h.0)) (map-flushed run error ms m e h.1)

      pub flush-shown :
          (content routed content' routed' : Text)
          → flush idb (shown content routed) (run_at content' routed') none ≡ shown content' routed'
      unfolding flush answer placeholder truthy
      flush-shown content routed content' routed' =
          ap
            (λ ms.
              let begun = (start idb w chat_id model ticks).0 in
              set_store idb begun (record begun.store { messages = ms }))
            (map-flushed (run_at content' routed') none w.messages _
                (placeholder-id chat_id model ticks) fresh
              ∙ ap (λ m. w.messages ++ m ∷ []) (flushed_self content routed content' routed' none))

      pub on_events-shown :
          (content routed : Text) (es : List Event)
          → on_events idb (shown content routed, run_at content routed) es ≡ (
            shown (content ++ tokens es) (last_model routed es),
            run_at (content ++ tokens es) (last_model routed es),
          )
      unfolding on_events on_event tokens last_model
      on_events-shown content routed [] = rw (append-nil content)
      on_events-shown content routed (Stream.token t ∷ es) =
          rw
            (flush-shown content routed (content ++ t) routed, ← append_assoc content t (tokens es))
            (on_events-shown (content ++ t) routed es)
      on_events-shown content routed (Stream.model n ∷ es) =
          rw (flush-shown content routed content n) (on_events-shown content n es)
