-- ===== src/Chats/Tests.antt =====
-- The chat store's theorems at concrete worlds, and a test of a whole send.
use llm_router_ui.Prelude.{◌≡◌, refl, false, List, none, some, [], ◌∷◌, ◌++◌, find}
use llm_router_ui.Text.{codes, same, is_empty}
use llm_router_ui.Types.{Message, default_settings, gateway_provider}
use llm_router_ui.Idb.Assoc.{assoc_store, lookup}
use llm_router_ui.Api.Stream
use llm_router_ui.Api.Stream.{Event}
use llm_router_ui.Api.Stream.Tokens.{tokens}
use llm_router_ui.Settings.{active_provider}
use llm_router_ui.Db.{Db, fresh}
use llm_router_ui.Db.Keys.{opened}
use llm_router_ui.Chats.{World, empty_state, rename_chat, remove_chat, new_chat, select_chat}
use llm_router_ui.Chats.Run.{
  Run, answer, complete, Ticks, placeholder, options_of, start, on_events, finalize, run_completion,
}
use llm_router_ui.Chats.Send.{
  save_user_message, add_user_message, show_user_message, SendTicks, user_message, send, stop,
}
use llm_router_ui.Chats.Settle.{settle, last_model}
use llm_router_ui.Chats.Refine.{outcome, run_completion-settle}
use llm_router_ui.Chats.Elsewhere.{on_events_elsewhere}
use llm_router_ui.Chats.Removal.{complete-remove_chat}
use llm_router_ui.Chats.Stopping.{stop-on_events, stop-finalize}
use llm_router_ui.Chats.Mirror.{IsMirror}
use llm_router_ui.Chats.Mirror.Sending.{IsFresh}
use llm_router_ui.Chats.Mirror.History.{
  Reach, page, opens, follows, sends, stops, renames, Reach-IsMirror,
}
use llm_router_ui.Chats.Mirror.Switching.{show_user_message-select_chat}
use llm_router_ui.Chats.Async.System.{Steps, opening_page}
use llm_router_ui.Chats.Async.Schedule.{Reach-Steps}
use llm_router_ui.Chats.Rests.{Rests, Reach-Rests}
use llm_router_ui.Samples.{trip, work, question, reply, sample_db, echo, answering, screen}

abbrev idle : World assoc_store
idle = record {
  store = record empty_state {
    chats = trip ∷ work ∷ [];
    messages = question ∷ reply ∷ [];
    active_chat_id = some (codes "c1");
  };
  controller = none;
  aborted = [];
  next_controller = 0;
  db = sample_db;
}

abbrev ticks : Ticks
ticks = record { assistant_id = codes "m9"; started = 41; touched = 42 }

gateway_is_active : active_provider default_settings ≡ some gateway_provider
unfolding active_provider same find
gateway_is_active = refl

run_completion-settle_example :
    run_completion assoc_store echo answering default_settings idle
      (codes "c1")
      (codes "auto")
      ticks
    ≡ settle assoc_store idle (placeholder (codes "c1") (codes "auto") ticks) 42 (
        outcome assoc_store echo answering default_settings gateway_provider
          (codes "auto")
          (options_of default_settings (codes "auto") (codes "m9") (question ∷ reply ∷ [])))
unfolding same
run_completion-settle_example =
    run_completion-settle assoc_store echo answering default_settings idle (codes "c1")
      (codes "auto") ticks gateway_provider gateway_is_active (refl, (refl, tt))

-- a page on an empty database, where a chat is begun, answered, and renamed
abbrev first_page : World assoc_store
first_page = page assoc_store echo (fresh assoc_store)

abbrev first_ids : SendTicks
first_ids = record { chat_id = codes "c1"; user_id = codes "m1"; now = 40 }

first_ids-IsFresh : IsFresh assoc_store first_page first_ids ticks
unfolding same lookup is_empty
first_ids-IsFresh = record {
  user = refl;
  assistant = refl;
  differ = refl;
  chat = refl;
  chat_unused = λ k s e. cc;
}

abbrev answered_page : World assoc_store
answered_page =
    send assoc_store echo answering default_settings first_page (codes "Where to?") first_ids ticks

abbrev renamed_page : World assoc_store
renamed_page =
    rename_chat assoc_store (stop assoc_store answered_page) (codes "c1") (codes "Plans") 50

renamed_page-Reach : Reach assoc_store echo renamed_page
renamed_page-Reach =
    follows
      (follows
        (follows (opens opened)
          (sends answering default_settings (codes "Where to?") first_ids ticks first_ids-IsFresh))
        stops)
      (renames (codes "c1") (codes "Plans") 50)

Reach-IsMirror_example : IsMirror assoc_store renamed_page
Reach-IsMirror_example = Reach-IsMirror assoc_store echo renamed_page-Reach

Reach-Rests_example : Rests assoc_store renamed_page
Reach-Rests_example = Reach-Rests assoc_store echo renamed_page-Reach

-- a database on which the page whose calls may overlap comes to the same world
abbrev IsScheduled : World assoc_store → Type 0
IsScheduled w =
    (db : Db assoc_store) × Steps assoc_store (opening_page assoc_store db)
      (record { world = w; tasks = [] })

Reach-Steps_example : IsScheduled renamed_page
Reach-Steps_example = Reach-Steps assoc_store echo renamed_page-Reach

abbrev two_events : List Event
two_events = Stream.model (codes "gpt") ∷ Stream.token (codes "Lis") ∷ []

stop-on_events_example :
    (let begun = start assoc_store idle (codes "c1") (codes "auto") ticks in
      let stopped = stop assoc_store (on_events assoc_store begun two_events).0 in
      (stopped.aborted ≡ begun.1.own_controller ∷ []) × (stopped.streaming ≡ false))
stop-on_events_example =
    stop-on_events assoc_store idle (codes "c1") (codes "auto") ticks two_events

-- a completion runs on the chat, under the controller 0
abbrev busy : World assoc_store
busy = (start assoc_store idle (codes "c1") (codes "auto") ticks).0

stop-finalize_example :
    (let second =
        start assoc_store
          (stop assoc_store busy)
          (codes "c1")
          (codes "auto")
          (record ticks { assistant_id = codes "m10" }) in
      let later = (on_events assoc_store (finalize assoc_store second.0, second.1) two_events).0 in
      ((stop assoc_store later).aborted ≡ (stop assoc_store busy).aborted)
      × (later.streaming ≡ false))
stop-finalize_example =
    stop-finalize assoc_store busy (codes "c1") (codes "auto")
      (record ticks { assistant_id = codes "m10" }) two_events

abbrev running : Run
running = (start assoc_store idle (codes "c1") (codes "auto") ticks).1

complete-remove_chat_example :
    (let after = complete assoc_store (remove_chat assoc_store busy (codes "c1")) running 50 in
      (assoc_store.get after.db.chats (codes "c1") ≡ none)
      × (assoc_store.get after.db.messages (codes "m9") ≡ some (answer running)))
unfolding start placeholder
complete-remove_chat_example = complete-remove_chat assoc_store busy running 50

abbrev asked : World assoc_store
asked =
    (start assoc_store
      (add_user_message assoc_store screen.world
        (user_message assoc_store (codes "c1") (codes "Why?") first_ids))
      (codes "c1") (codes "auto") ticks).0

on_events_elsewhere_example :
    on_events assoc_store (new_chat assoc_store busy, running) two_events ≡ (
      new_chat assoc_store busy,
      record running {
        accumulated = running.accumulated ++ tokens two_events;
        routed_model = last_model running.routed_model two_events;
      },
    )
unfolding new_chat
on_events_elsewhere_example =
    on_events_elsewhere assoc_store two_events (new_chat assoc_store busy) running tt

-- a message to the first chat, and the second chat selected as it is saved
abbrev late : Message
late = user_message assoc_store (codes "c1") (codes "Why?") first_ids

show_user_message-select_chat_example : ¬ IsMirror assoc_store (
    show_user_message assoc_store
      (select_chat assoc_store (save_user_message assoc_store idle late) (some (99 ∷ 50 ∷ [])))
      late)
unfolding same
show_user_message-select_chat_example =
    show_user_message-select_chat assoc_store idle late 99 (50 ∷ []) refl
