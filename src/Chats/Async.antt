-- ===== src/Chats/Async.antt =====
-- The actions of frontend/src/store/useChats.ts cut at every await. A call runs to its first await
-- and leaves a task; a task is resumed when what it waits for is there, and runs to the next one.
-- A request to the database takes effect when it is made, and its answer arrives later.
pub mod System
pub mod Effects
pub mod Marks
pub mod Rest
pub mod Quiet
pub mod Alone
pub mod Sequential
pub mod Solo
pub mod Schedule
pub mod Overlap
mod Tests
use llm_router_ui.Prelude.{
  ℕ, Bool, true, false, ◌||◌, not, Option, none, some, List, [], ◌∷◌, ◌++◌, map, filter, find,
  reverse, ltb, or_else, if◌then◌else◌,
}
use llm_router_ui.Text.{Text, same, is_empty, trim}
use llm_router_ui.Types.{Message, Chat, Settings}
use llm_router_ui.Idb.{ObjectStore}
use llm_router_ui.Db.{
  list_chats, list_messages, save_chat, delete_chat, save_message, delete_messages_from,
}
use llm_router_ui.Settings.{is_id, active_provider}
use llm_router_ui.Utils.{derive_title}
use llm_router_ui.Api.{
  Result, returned, threw, Thrown, abort_error, api_error, type_error, other_error, not_an_error,
}
use llm_router_ui.Api.Errors.{truthy}
use llm_router_ui.Api.Request.{Completion}
use llm_router_ui.Chats.{World, set_store, new_chat, clear_error, replace_chat}
use llm_router_ui.Chats.Run.{
  Run, Ticks, answer, failed_answer, error_text, start, flush, on_event, drop_placeholder, finalize,
}
use llm_router_ui.Chats.Send.{
  SendTicks, no_provider, chosen_chat, is_assistant, user_message, show_user_message, stop,
}

-- what a call waits for, with the variables that it still needs
pub data Task : Type 0 where
  -- hydrate, selectChat, removeChat, renameChat
  listing : List Chat → Task
  selecting : Text → List Message → Task
  removing : Text → Task
  renaming : Text → Chat → Task
  -- send: the chat and then the message are being saved; the text is the model
  opening : Chat → Text → Text → SendTicks → Task
  asking : Message → Text → Task
  -- regenerate: the turn is being deleted, and these messages stay
  dropping : Text → List Message → Text → Task
  -- runCompletion: the network, the save of the answer, that of the chat, that of the failed turn
  reading : Run → Task
  saving : Run → Task
  touching : Run → Chat → Task
  failing : Run → Text → Task

abbrev pub is_reading : Task → Bool
is_reading (reading run) = true
is_reading _ = false

module _ (idb : ObjectStore) where
  abbrev pub Next : Type 0
  Next = World idb × Option Task

  -- a call that is over
  abbrev pub over : World idb → Next
  over w = (w, none)

  unfoldable pub call_hydrate : World idb → Next
  call_hydrate w = (w, some (listing (list_chats idb w.db)))

  unfoldable pub call_select : World idb → Option Text → Next
  unfolding chosen_chat
  call_select w c = elim (chosen_chat c) [
    | none ↦ (
      set_store idb w (record w.store { active_chat_id = none; messages = []; error = none }),
      none,
    )
    | some id ↦ (w, some (selecting id (list_messages idb w.db id)))
  ]

  unfoldable pub call_remove : World idb → Text → Next
  call_remove w id = (record w { db = delete_chat idb w.db id }, some (removing id))

  unfoldable pub call_rename : World idb → Text → Text → ℕ → Next
  call_rename w id title now = elim (find (λ c. same c.id id) w.chats) [
    | none ↦ (w, none)
    | some chat ↦
        let updated = record chat { title = title; updated_at = now } in
        (record w { db = save_chat idb w.db updated }, some (renaming id updated))
  ]

  abbrev pub chat_of : Text → SendTicks → Chat
  chat_of content ticks = record {
    id = ticks.chat_id;
    title = derive_title content;
    created_at = ticks.now;
    updated_at = ticks.now;
    model = none;
    system_prompt = none;
  }

  unfoldable pub ask : World idb → Text → Text → Text → SendTicks → Next
  ask w chat_id content model ticks =
      let m = user_message idb chat_id content ticks in
      (record w { db = save_message idb w.db m }, some (asking m model))

  unfoldable pub call_send : Settings → World idb → Text → SendTicks → Next
  unfolding ask chosen_chat
  call_send settings w text ticks =
      let content = trim text in
      if is_empty content || w.streaming then (w, none) else elim (active_provider settings) [
        | none ↦ (set_store idb w (record w.store { error = some no_provider }), none)
        | some p ↦ elim (chosen_chat w.active_chat_id) [
          | none ↦ (
            record w { db = save_chat idb w.db (chat_of content ticks) },
            some (opening (chat_of content ticks) content p.model ticks),
          )
          | some chat_id ↦ ask w chat_id content p.model ticks
        ]
      ]

  -- `runCompletion` to its first await
  unfoldable pub begin : Settings → World idb → Text → Text → Ticks → Next
  begin settings w chat_id model ticks = elim (active_provider settings) [
    | none ↦ (w, none)
    | some p ↦ let begun = start idb w chat_id model ticks in (begun.0, some (reading begun.1))
  ]

  unfoldable pub call_regenerate : Settings → World idb → Ticks → Next
  unfolding begin chosen_chat is_assistant
  call_regenerate settings w ticks = elim (chosen_chat w.active_chat_id) [
    | none ↦ (w, none)
    | some chat_id ↦ if w.streaming then (w, none) else elim (active_provider settings) [
      | none ↦ (set_store idb w (record w.store { error = some no_provider }), none)
      | some p ↦ elim (find (λ m. is_assistant m.role) (reverse w.messages)) [
        | none ↦ begin settings w chat_id p.model ticks
        | some last ↦ (
          record w { db = delete_messages_from idb w.db chat_id last.created_at },
          some (
              dropping chat_id (filter (λ m. ltb m.created_at last.created_at) w.messages) p.model),
        )
      ]
    ]
  ]

  -- the answer of the network: the answer is saved, and so is what came before an abort
  unfoldable pub save_answer : World idb → Run → Next
  unfolding answer
  save_answer w run = (record w { db = save_message idb w.db (answer run) }, some (saving run))

  unfoldable pub save_failure : World idb → Run → Text → Next
  unfolding failed_answer
  save_failure w run message = (
    record w { db = save_message idb w.db (failed_answer run message) },
    some (failing run message),
  )

  unfoldable pub fail_read : World idb → Run → Thrown → Next
  unfolding save_answer save_failure error_text drop_placeholder finalize
  fail_read w run abort_error =
      if is_empty run.accumulated
      then (finalize idb (drop_placeholder idb w run), none)
      else save_answer w run
  fail_read w run e = save_failure w run (error_text e)

  -- the stream has come to its end, or the whole answer is there, which is shown before it is saved
  unfoldable pub end_read : World idb → Run → Result Text → Next
  unfolding save_answer fail_read
  end_read w run (returned full) = save_answer w (record run { accumulated = full })
  end_read w run (threw e) = fail_read w run e

  unfoldable pub end_fetch : World idb → Run → Result Completion → Next
  unfolding save_answer fail_read flush
  end_fetch w run (returned result) =
      let run' = record run {
        accumulated = result.content;
        routed_model = or_else (truthy result.model) run.routed_model;
      } in
      save_answer (flush idb w run' none) run'
  end_fetch w run (threw e) = fail_read w run e

  unfoldable pub touch : World idb → Run → ℕ → Next
  unfolding finalize
  touch w run now = elim (find (λ c. same c.id run.chat_id) w.chats) [
    | none ↦ (finalize idb w, none)
    | some chat ↦
        let updated = record chat { updated_at = now } in
        (record w { db = save_chat idb w.db updated }, some (touching run updated))
  ]

  abbrev pub remove_shown : World idb → Text → World idb
  remove_shown w id =
      let active = is_id w.active_chat_id id in
      set_store idb w (record w.store {
        chats = filter (λ c. not (same c.id id)) w.chats;
        active_chat_id = if active then none else w.active_chat_id;
        messages = if active then [] else w.messages;
      })

  -- the chat whose answer was saved moves to the top
  abbrev pub raise : World idb → Text → Chat → World idb
  raise w id updated =
      set_store idb w
        (record w.store { chats = updated ∷ filter (λ c. not (same c.id id)) w.chats })

  unfoldable pub resume : Settings → World idb → Task → Ticks → Next
  unfolding ask begin touch flush finalize replace_chat
  resume settings w (listing chats) ticks =
      (set_store idb w (record w.store { chats = chats }), none)
  resume settings w (selecting id ms) ticks = (
    set_store idb w (record w.store { active_chat_id = some id; messages = ms; error = none }),
    none,
  )
  resume settings w (removing id) ticks = (remove_shown w id, none)
  resume settings w (renaming id updated) ticks =
      (set_store idb w (record w.store { chats = map (replace_chat idb id updated) w.chats }), none)
  resume settings w (opening chat content model send_ticks) ticks =
      let opened =
        set_store idb w
          (record w.store { chats = chat ∷ w.chats; active_chat_id = some chat.id }) in
      ask opened chat.id content model send_ticks
  resume settings w (asking m model) ticks =
      begin settings (show_user_message idb w m) m.chat_id model ticks
  resume settings w (dropping chat_id kept model) ticks =
      begin settings (set_store idb w (record w.store { messages = kept })) chat_id model ticks
  -- a read goes on with the network only
  resume settings w (reading run) ticks = (w, some (reading run))
  resume settings w (saving run) ticks = touch w run ticks.touched
  resume settings w (touching run updated) ticks =
      (finalize idb (raise w run.chat_id updated), none)
  resume settings w (failing run message) ticks =
      let shown = flush idb w run (some message) in
      (finalize idb (set_store idb shown (record shown.store { error = some message })), none)
