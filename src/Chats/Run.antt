-- ===== src/Chats/Run.antt =====
-- `runCompletion` of frontend/src/store/useChats.ts: one completion, from the placeholder message
-- to the saved answer. It is cut at its awaits into the steps `start`, `on_event`, `complete`,
-- `fail` and `finalize`; `run_completion` takes them in order, with no other action between.
use llm_router_ui.Prelude.{
  ℕ, suc, true, false, ◌&&◌, not, Option, none, some, List, [], ◌∷◌, ◌++◌, map, filter, or_else,
  if◌then◌else◌,
}
use llm_router_ui.Text.{Text, codes, same, is_empty, trim, starts_with}
use llm_router_ui.Types.{Role, Message, Provider, Settings, ChatCompletionMessage, WebSearchEngine}
use llm_router_ui.Idb.{ObjectStore}
use llm_router_ui.Db.{save_message}
use llm_router_ui.Settings.{active_provider}
use llm_router_ui.Api.{
  Platform, Response, Result, returned, threw, Thrown, api_error, type_error, abort_error,
  other_error, not_an_error,
}
use llm_router_ui.Api.Errors.{truthy}
use llm_router_ui.Api.Request.{Request, Options, Completion, fetch_completion}
use llm_router_ui.Api.Stream
use llm_router_ui.Api.Stream.{Event, stream_completion}
use llm_router_ui.Chats.{World, set_store, touch_chat}

-- the variables of one call
pub record Run : Type 0 where
  pub chat_id : Text
  pub assistant : Message
  pub own_controller : ℕ
  pub accumulated : Text
  pub routed_model : Text

-- what the clock and `uid` give to one call
pub record Ticks : Type 0 where
  pub assistant_id : Text
  pub started : ℕ
  pub touched : ℕ

-- `{ ...assistantMsg, content: accumulated, model: routedModel }`
unfoldable pub answer : Run → Message
answer run = record run.assistant { content = run.accumulated; model = some run.routed_model }

unfoldable pub failed_answer : Run → Text → Message
failed_answer run message = record run.assistant {
  content = run.accumulated;
  model = some run.routed_model;
  error = some message;
}

-- the messages that are sent: neither the placeholder nor a failed turn
unfoldable pub history_of : Text → List Message → List ChatCompletionMessage
history_of assistant_id [] = []
history_of assistant_id (m ∷ ms) =
    let rest = history_of assistant_id ms in
    if same m.id assistant_id then rest else elim (truthy m.error) [
      | some e ↦ rest
      | none ↦ record { role = m.role; content = m.content } ∷ rest
    ]

unfoldable pub system_turn : Text → List ChatCompletionMessage
system_turn prompt =
    let text = trim prompt in
    if is_empty text then [] else record { role = Role.system; content = text } ∷ []

-- `webSearch && model.startsWith('openrouter/') ? webSearchEngine : undefined`
unfoldable pub search_engine : Settings → Text → Option WebSearchEngine
search_engine settings model =
    if settings.web_search && starts_with (codes "openrouter/") model
    then some settings.web_search_engine
    else none

unfoldable pub options_of : Settings → Text → Text → List Message → Options
unfolding history_of system_turn search_engine
options_of settings model assistant_id messages = record {
  model = model;
  messages = system_turn settings.system_prompt ++ history_of assistant_id messages;
  temperature = some settings.temperature;
  max_tokens = settings.max_tokens;
  web_search = search_engine settings model;
}

unfoldable pub placeholder : Text → Text → Ticks → Message
placeholder chat_id model ticks = record {
  id = ticks.assistant_id;
  chat_id = chat_id;
  role = Role.assistant;
  content = [];
  created_at = ticks.started;
  error = none;
  model = some model;
}

-- the message of a caught value that is no abort
unfoldable pub error_text : Thrown → Text
error_text (api_error message status) = message
error_text (type_error message) =
    codes "Network error — check the Base URL and that the endpoint allows CORS."
error_text (other_error message) = message
error_text abort_error = []
error_text not_an_error = codes "Unknown error"

-- the update of `flush`: the content, the model, and the error if there is one to set
unfoldable pub flushed : Run → Option Text → Message → Message
flushed run error m =
    if same m.id run.assistant.id
    then record m {
      content = run.accumulated;
      model = some run.routed_model;
      error = elim (truthy error) [ none ↦ m.error | some e ↦ some e ];
    }
    else m

module _ (idb : ObjectStore) where
  unfoldable pub start : World idb → Text → Text → Ticks → World idb × Run
  unfolding placeholder
  start w chat_id model ticks = (
    record w {
      store = record w.store {
        messages = w.messages ++ placeholder chat_id model ticks ∷ [];
        streaming = true;
        streaming_id = some ticks.assistant_id;
        error = none;
      };
      controller = some w.next_controller;
      next_controller = suc w.next_controller;
    },
    record {
      chat_id = chat_id;
      assistant = placeholder chat_id model ticks;
      own_controller = w.next_controller;
      accumulated = [];
      routed_model = model;
    },
  )

  unfoldable pub flush : World idb → Run → Option Text → World idb
  unfolding flushed
  flush w run error =
      set_store idb w (record w.store { messages = map (flushed run error) w.messages })

  abbrev pub heard : Run → Event → Run
  heard run (Stream.token t) = record run { accumulated = run.accumulated ++ t }
  heard run (Stream.model m) = record run { routed_model = m }

  unfoldable pub on_event : World idb × Run → Event → World idb × Run
  unfolding flush
  on_event (w, run) event = (flush w (heard run event) none, heard run event)

  unfoldable pub on_events : World idb × Run → List Event → World idb × Run
  unfolding on_event
  on_events wr [] = wr
  on_events wr (event ∷ events) = on_events (on_event wr event) events

  unfoldable pub complete : World idb → Run → ℕ → World idb
  unfolding answer touch_chat
  complete w run now =
      touch_chat idb (record w { db = save_message idb w.db (answer run) }) run.chat_id now

  unfoldable pub drop_placeholder : World idb → Run → World idb
  drop_placeholder w run =
      set_store idb w
        (record w.store { messages = filter (λ m. not (same m.id run.assistant.id)) w.messages })

  unfoldable pub fail : World idb → Run → Thrown → ℕ → World idb
  unfolding complete drop_placeholder failed_answer error_text flush
  fail w run abort_error now =
      if is_empty run.accumulated then drop_placeholder w run else complete w run now
  fail w run e now =
      let message = error_text e in
      let saved = record w { db = save_message idb w.db (failed_answer run message) } in
      let shown = flush saved run (some message) in
      set_store idb shown (record shown.store { error = some message })

  unfoldable pub finalize : World idb → World idb
  finalize w = record w {
    store = record w.store { streaming = false; streaming_id = none };
    controller = none;
  }

  abbrev pub streamed : World idb × Run → Result Text → ℕ → World idb
  streamed (w, run) (returned full) now = complete w (record run { accumulated = full }) now
  streamed (w, run) (threw e) now = fail w run e now

  -- `routedModel = result.model || model`
  abbrev pub fetched : World idb × Run → Result Completion → ℕ → World idb
  fetched (w, run) (returned result) now =
      let run' = record run {
        accumulated = result.content;
        routed_model = or_else (truthy result.model) run.routed_model;
      } in
      complete (flush w run' none) run' now
  fetched (w, run) (threw e) now = fail w run e now

  module _ (platform : Platform) (fetch : Request → Result Response) (settings : Settings) where
    unfoldable pub call : World idb × Run → Provider → Options → ℕ → World idb
    unfolding on_events complete fail flush
    call (w, run) provider options now =
        if settings.streaming
        then (let (events, result) = stream_completion platform fetch provider options in
            streamed (on_events (w, run) events) result now)
        else fetched (w, run) (fetch_completion platform fetch provider options) now

    unfoldable pub run_completion : World idb → Text → Text → Ticks → World idb
    unfolding start call finalize options_of
    run_completion w chat_id model ticks = elim (active_provider settings) [
      | none ↦ w
      | some provider ↦
          let started = start w chat_id model ticks in
          finalize (
            call started provider
              (options_of settings model ticks.assistant_id started.0.store.messages) ticks.touched)
    ]
