-- ===== src/Chats/Settle.antt =====
-- What a completion comes to, said at once: `settle` is the world after one call of
-- `runCompletion`, from the outcome of the network call and with no rendering on the way.
pub mod Rendering
pub mod Endings
use llm_router_ui.Prelude.{
  ℕ, suc, ◌≡◌, refl, ap, ap₂, ◌∙◌, Bool, true, false, not, Option, none, some, List, [], ◌∷◌, ◌++◌,
  map, filter, find, All, or_else, arith, Option-cases, inl, inr,
}
use mathlib.Core.List.{append_assoc, append-nil}
use llm_router_ui.Text.{Text, same, is_empty}
use llm_router_ui.Text.Laws.{same_refl}
use llm_router_ui.Types.{Message}
use llm_router_ui.Idb.{ObjectStore}
use llm_router_ui.Db.{save_message}
use llm_router_ui.Api.{
  Result, returned, threw, Thrown, api_error, type_error, abort_error, other_error, not_an_error,
}
use llm_router_ui.Api.Errors.{truthy}
use llm_router_ui.Api.Request.{Completion}
use llm_router_ui.Api.Stream
use llm_router_ui.Api.Stream.{Event, stream_completion}
use llm_router_ui.Api.Stream.Tokens.{tokens}
use llm_router_ui.Chats.{World, set_store, touch_chat}
use llm_router_ui.Chats.Run.{
  Run, Ticks, answer, failed_answer, placeholder, error_text, flushed, start, flush, on_event,
  on_events, complete, drop_placeholder, fail, finalize, streamed, fetched,
}

-- the model that is shown after some events
unfoldable pub last_model : Text → List Event → Text
last_model m [] = m
last_model m (Stream.token t ∷ es) = last_model m es
last_model m (Stream.model n ∷ es) = last_model n es

pub data Outcome : Type 0 where
  answered : Text → Text → Outcome
  interrupted : Text → Text → Outcome
  broken : Text → Text → Text → Outcome

unfoldable pub thrown_outcome : Thrown → Text → Text → Outcome
thrown_outcome abort_error content model = interrupted content model
thrown_outcome e content model = broken content model (error_text e)

unfoldable pub stream_outcome : Text → List Event × Result Text → Outcome
unfolding thrown_outcome last_model
stream_outcome model (events, returned full) = answered full (last_model model events)
stream_outcome model (events, threw e) = thrown_outcome e (tokens events) (last_model model events)

unfoldable pub fetch_outcome : Text → Result Completion → Outcome
unfolding thrown_outcome
fetch_outcome model (returned r) = answered r.content (or_else (truthy r.model) model)
fetch_outcome model (threw e) = thrown_outcome e [] model

module _ (idb : ObjectStore) where
  -- the world once the call is over, with the given messages
  unfoldable pub rested : World idb → List Message → Option Text → World idb
  rested w messages error = record w {
    store = record w.store {
      messages = messages;
      streaming = false;
      streaming_id = none;
      error = error;
    };
    controller = none;
    next_controller = suc w.next_controller;
  }

  -- a message that is stored and shown at the end of the chat
  unfoldable pub recorded : World idb → Message → Message → Option Text → World idb
  unfolding rested
  recorded w stored shown error = record (rested w (w.messages ++ shown ∷ []) error) {
    db = save_message idb w.db stored;
  }

  unfoldable pub settle : World idb → Message → ℕ → Outcome → World idb
  unfolding recorded
  settle w m now (answered content model) =
      let done = record m { content = content; model = some model } in
      touch_chat idb (recorded w done done none) m.chat_id now
  settle w m now (interrupted [] model) = rested w w.messages none
  settle w m now (interrupted (c ∷ s) model) =
      let partial = record m { content = c ∷ s; model = some model } in
      touch_chat idb (recorded w partial partial none) m.chat_id now
  settle w m now (broken content model error) =
      let left = record m { content = content; model = some model } in
      recorded w (record left { error = some error }) (record left { error = truthy (some error) })
        (some error)
