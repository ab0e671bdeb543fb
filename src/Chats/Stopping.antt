-- ===== src/Chats/Stopping.antt =====
-- `stop` of frontend/src/store/useChats.ts, during a completion and across two of them: the steps
-- of `runCompletion` stand between the calls as its awaits let them.
use llm_router_ui.Prelude.{ℕ, ◌≡◌, refl, ap, ◌∙◌, false, none, some, List, [], ◌∷◌}
use llm_router_ui.Text.{Text}
use llm_router_ui.Idb.{ObjectStore}
use llm_router_ui.Api.Stream.{Event}
use llm_router_ui.Chats.{World}
use llm_router_ui.Chats.Run.{Run, Ticks, start, flush, on_event, on_events, finalize}
use llm_router_ui.Chats.Send.{stop}

module _ (idb : ObjectStore) where
  on_events-controller :
      (es : List Event) (wr : World idb × Run)
      → (on_events idb wr es).0.controller ≡ wr.0.controller
  unfolding on_events on_event flush
  on_events-controller [] wr = refl
  on_events-controller (e ∷ es) wr = on_events-controller es (on_event idb wr e)

  on_events-aborted :
      (es : List Event) (wr : World idb × Run) → (on_events idb wr es).0.aborted ≡ wr.0.aborted
  unfolding on_events on_event flush
  on_events-aborted [] wr = refl
  on_events-aborted (e ∷ es) wr = on_events-aborted es (on_event idb wr e)

  on_events-streaming :
      (es : List Event) (wr : World idb × Run) → (on_events idb wr es).0.streaming ≡ wr.0.streaming
  unfolding on_events on_event flush
  on_events-streaming [] wr = refl
  on_events-streaming (e ∷ es) wr = on_events-streaming es (on_event idb wr e)

  stop-some : (v : World idb) (c : ℕ) → v.controller ≡ some c → (stop idb v).aborted ≡ c ∷ v.aborted
  unfolding stop
  stop-some v c e = rw e

  stop-none : (v : World idb) → v.controller ≡ none → (stop idb v).aborted ≡ v.aborted
  unfolding stop
  stop-none v e = rw e

  -- Whatever a completion has reported since it began, `stop` aborts that completion's own
  -- controller, no other one, and leaves the store not streaming.
  pub stop-on_events :
      (w : World idb) (chat_id model : Text) (ticks : Ticks) (es : List Event)
      → (let begun = start idb w chat_id model ticks in
          let stopped = stop idb (on_events idb begun es).0 in
          (stopped.aborted ≡ begun.1.own_controller ∷ w.aborted) × (stopped.streaming ≡ false))
  unfolding stop start
  stop-on_events w chat_id model ticks es =
      let begun = start idb w chat_id model ticks in
      let later = (on_events idb begun es).0 in
      (
        stop-some later w.next_controller (on_events-controller es begun)
            ∙ ap (◌∷◌ w.next_controller) (on_events-aborted es begun),
        refl,
      )

  -- When a completion ends after it was stopped and a second one has begun, then whatever the
  -- second one reports from there, `stop` aborts no controller any more, and the store is not
  -- streaming: the end of the first completion took the second one's controller and flag.
  pub stop-finalize :
      (w : World idb) (chat_id model : Text) (ticks : Ticks) (es : List Event)
      → (let second = start idb (stop idb w) chat_id model ticks in
          let later = (on_events idb (finalize idb second.0, second.1) es).0 in
          ((stop idb later).aborted ≡ (stop idb w).aborted) × (later.streaming ≡ false))
  unfolding stop start finalize
  stop-finalize w chat_id model ticks es =
      let second = start idb (stop idb w) chat_id model ticks in
      let ended : World idb × Run = (finalize idb second.0, second.1) in
      let later = (on_events idb ended es).0 in
      (
        stop-none later (on_events-controller es ended) ∙ on_events-aborted es ended,
        on_events-streaming es ended,
      )
