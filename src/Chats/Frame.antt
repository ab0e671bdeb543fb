-- ===== src/Chats/Frame.antt =====
-- No action of frontend/src/store/useChats.ts touches the settings in the database.
use llm_router_ui.Prelude.{
  ◌≡◌, refl, ◌∙◌, ◌||◌, Option, none, some, List, [], ◌∷◌, ℕ, find, reverse, or_else, Option-cases,
  Bool-cases, if_either, inl, inr,
}
use llm_router_ui.Text.{Text, same, is_empty, trim}
use llm_router_ui.Types.{Settings, Provider}
use llm_router_ui.Idb.{ObjectStore}
use llm_router_ui.Db.{save_message, save_chat, delete_chat, delete_messages_from}
use llm_router_ui.Settings.{active_provider}
use llm_router_ui.Api.{
  Platform, Response, Result, returned, threw, Thrown, abort_error, api_error, type_error,
  other_error, not_an_error,
}
use llm_router_ui.Api.Errors.{truthy}
use llm_router_ui.Api.Request.{Request, Options, Completion, fetch_completion}
use llm_router_ui.Api.Stream.{Event, stream_completion}
use llm_router_ui.Chats.{
  World, hydrate, select_chat, new_chat, remove_chat, rename_chat, clear_error, touch_chat,
}
use llm_router_ui.Chats.Run.{
  Run, Ticks, start, flush, on_event, on_events, complete, drop_placeholder, fail, finalize,
  streamed, fetched, call, run_completion,
}
use llm_router_ui.Chats.Send.{
  chosen_chat, is_assistant, SendTicks, stop, open_chat, target_chat, add_user_message,
  drop_last_turn, deliver, send, regenerate,
}
use llm_router_ui.Chats.Mirror.History.{
  Step, hydrates, selects, opens_new, removes, renames, sends, regenerates, stops, clears_error,
}

module _ (idb : ObjectStore) where
  -- the same settings are stored
  abbrev pub Frames : World idb → World idb → Type 0
  Frames v w = v.db.settings ≡ w.db.settings

  touch_chat-Frames : (w : World idb) (c : Text) (now : ℕ) → Frames w (touch_chat idb w c now)
  unfolding touch_chat save_chat
  touch_chat-Frames w c now = elim (Option-cases (find (λ x. same x.id c) w.chats)) [
    | inl e ↦ rw (touch_chat, e) refl
    | inr (x, e) ↦ rw (touch_chat, e) refl
  ]

  complete-Frames : (w : World idb) (run : Run) (now : ℕ) → Frames w (complete idb w run now)
  unfolding complete save_message
  complete-Frames w run now = touch_chat-Frames _ run.chat_id now

  fail-Frames : (w : World idb) (run : Run) (e : Thrown) (now : ℕ) → Frames w (fail idb w run e now)
  unfolding fail drop_placeholder flush save_message
  fail-Frames w run abort_error now =
      if_either (Frames w) (is_empty run.accumulated) _ _ refl (complete-Frames w run now)
  fail-Frames w run (api_error m status) now = refl
  fail-Frames w run (type_error m) now = refl
  fail-Frames w run (other_error m) now = refl
  fail-Frames w run not_an_error now = refl

  on_events-Frames :
      (w : World idb) (run : Run) (events : List Event) → Frames w (on_events idb (w, run) events).0
  unfolding on_events on_event flush
  on_events-Frames w run [] = refl
  on_events-Frames w run (e ∷ events) =
      let read = on_event idb (w, run) e in on_events-Frames read.0 read.1 events

  streamed-Frames :
      (v w : World idb) (run : Run) (result : Result Text) (now : ℕ)
      → Frames v w
      → Frames v (streamed idb (w, run) result now)
  streamed-Frames v w run (returned full) now h = h ∙ complete-Frames w _ now
  streamed-Frames v w run (threw e) now h = h ∙ fail-Frames w run e now

  fetched-Frames :
      (w : World idb) (run : Run) (result : Result Completion) (now : ℕ)
      → Frames w (fetched idb (w, run) result now)
  unfolding flush
  fetched-Frames w run (returned result) now =
      let whole = record run {
        accumulated = result.content;
        routed_model = or_else (truthy result.model) run.routed_model;
      } in
      complete-Frames (flush idb w whole none) whole now
  fetched-Frames w run (threw e) now = fail-Frames w run e now

  module _ (platform : Platform) (fetch : Request → Result Response) (settings : Settings) where
    call-Frames :
        (w : World idb) (run : Run) (p : Provider) (options : Options) (now : ℕ)
        → Frames w (call idb platform fetch settings (w, run) p options now)
    unfolding call
    call-Frames w run p options now =
        let stream = stream_completion platform fetch p options in
        let read = on_events idb (w, run) stream.0 in
        if_either (Frames w) settings.streaming _ _
          (streamed-Frames w read.0 read.1 stream.1 now (on_events-Frames w run stream.0))
          (fetched-Frames w run (fetch_completion platform fetch p options) now)

    run_completion-Frames :
        (w : World idb) (c model : Text) (ticks : Ticks)
        → Frames w (run_completion idb platform fetch settings w c model ticks)
    unfolding run_completion finalize start
    run_completion-Frames w c model ticks = elim (Option-cases (active_provider settings)) [
      | inl e ↦ rw (run_completion, e) refl
      | inr (p, e) ↦
          rw (run_completion, e)
            (let started = start idb w c model ticks in
              call-Frames started.0 started.1 p _ ticks.touched)
    ]

    drop_last_turn-Frames : (w : World idb) (c : Text) → Frames w (drop_last_turn idb w c)
    unfolding drop_last_turn delete_messages_from
    drop_last_turn-Frames w c =
        elim (Option-cases (find (λ m. is_assistant m.role) (reverse w.messages))) [
          | inl e ↦ rw (drop_last_turn, e) refl
          | inr (last, e) ↦ rw (drop_last_turn, e) refl
        ]

    regenerate-Frames :
        (w : World idb) (ticks : Ticks) → Frames w (regenerate idb platform fetch settings w ticks)
    unfolding regenerate
    regenerate-Frames w ticks = elim (Option-cases (chosen_chat w.active_chat_id)) [
      | inl e ↦ rw (regenerate, e) refl
      | inr (c, e) ↦
          rw (regenerate, e)
            (if_either (Frames w) w.streaming w _ refl
              (elim (Option-cases (active_provider settings)) [
                | inl f ↦ rw f refl
                | inr (p, f) ↦ rw f (
                    drop_last_turn-Frames w c
                    ∙ run_completion-Frames (drop_last_turn idb w c) c p.model ticks)
              ]))
    ]

    send-Frames :
        (w : World idb) (text : Text) (ticks : SendTicks) (run_ticks : Ticks)
        → Frames w (send idb platform fetch settings w text ticks run_ticks)
    unfolding send target_chat open_chat deliver add_user_message save_chat save_message
    send-Frames w text ticks run_ticks = elim (Bool-cases (is_empty (trim text) || w.streaming)) [
      | inl off ↦ rw (send, off) refl
      | inr on ↦ elim (Option-cases (active_provider settings)) [
        | inl e ↦ rw (send, on, e) refl
        | inr (p, e) ↦
            rw (send, on, e)
              (elim (Option-cases (chosen_chat w.active_chat_id)) [
                | inl f ↦
                    rw (target_chat, f) (run_completion-Frames _ ticks.chat_id p.model run_ticks)
                | inr (c, f) ↦ rw (target_chat, f) (run_completion-Frames _ c p.model run_ticks)
              ])
      ]
    ]

  select_chat-Frames : (w : World idb) (c : Option Text) → Frames w (select_chat idb w c)
  unfolding select_chat
  select_chat-Frames w none = refl
  select_chat-Frames w (some []) = refl
  select_chat-Frames w (some (k ∷ c)) = refl

  rename_chat-Frames :
      (w : World idb) (c title : Text) (now : ℕ) → Frames w (rename_chat idb w c title now)
  unfolding rename_chat save_chat
  rename_chat-Frames w c title now = elim (Option-cases (find (λ x. same x.id c) w.chats)) [
    | inl e ↦ rw (rename_chat, e) refl
    | inr (x, e) ↦ rw (rename_chat, e) refl
  ]

  pub Step-Frames : (platform : Platform) {v w : World idb} → Step idb platform v w → Frames v w
  unfolding hydrate new_chat remove_chat clear_error stop delete_chat
  Step-Frames platform hydrates = refl
  Step-Frames platform {v} (selects c) = select_chat-Frames v c
  Step-Frames platform opens_new = refl
  Step-Frames platform (removes c) = refl
  Step-Frames platform {v} (renames c title now) = rename_chat-Frames v c title now
  Step-Frames platform {v} (sends fetch settings text ticks run_ticks fresh) =
      send-Frames platform fetch settings v text ticks run_ticks
  Step-Frames platform {v} (regenerates fetch settings ticks unused) =
      regenerate-Frames platform fetch settings v ticks
  Step-Frames platform stops = refl
  Step-Frames platform clears_error = refl
