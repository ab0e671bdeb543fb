-- ===== src/Chats/Async/Effects.antt =====
-- What each call and each move does to the marks of a running completion: the flag `streaming`, the
-- message that is being written, and the controller.
use llm_router_ui.Prelude.{
  ℕ, ◌≡◌, refl, false, ◌||◌, Option, none, some, find, reverse, Bool-cases, Option-cases, if_either,
  inl, inr,
}
use llm_router_ui.Text.{Text, same, is_empty, trim}
use llm_router_ui.Types.{Settings}
use llm_router_ui.Idb.{ObjectStore}
use llm_router_ui.Settings.{active_provider}
use llm_router_ui.Api.{
  returned, threw, Thrown, abort_error, api_error, type_error, other_error, not_an_error,
}
use llm_router_ui.Api.Stream
use llm_router_ui.Chats.{World, new_chat, clear_error}
use llm_router_ui.Chats.Run.{Run, Ticks, start, placeholder, flush, on_event, finalize}
use llm_router_ui.Chats.Send.{SendTicks, chosen_chat, is_assistant, stop}
use llm_router_ui.Chats.Async.{
  Task, Next, listing, selecting, removing, renaming, opening, asking, dropping, reading, saving,
  touching, failing, call_hydrate, call_select, call_remove, call_rename, ask, call_send, begin,
  call_regenerate, save_answer, save_failure, fail_read, end_read, end_fetch, touch, resume,
}
use llm_router_ui.Chats.Async.System.{
  Call, hydrates, selects, opens_new, removes, renames, sends, regenerates, stops, clears_error,
  Move, resumes, reports, ends_read, ends_fetch,
}

-- the message and the controller of a completion
abbrev pub Badge : Type 0
Badge = Text × ℕ

abbrev pub badge_of : Run → Badge
badge_of run = (run.assistant.id, run.own_controller)

-- the completion that a task is part of
abbrev pub badge : Task → Option Badge
badge (reading run) = some (badge_of run)
badge (saving run) = some (badge_of run)
badge (touching run chat) = some (badge_of run)
badge (failing run message) = some (badge_of run)
badge _ = none

abbrev pub badge? : Option Task → Option Badge
badge? none = none
badge? (some t) = badge t

module _ (idb : ObjectStore) where
  abbrev pub Alike : World idb → World idb → Type 0
  Alike v w =
      (v.streaming ≡ w.streaming)
      × (v.streaming_id ≡ w.streaming_id)
      × (v.controller ≡ w.controller)

  -- The marks stay, and so does the completion that the task belongs to; or they are taken off; or
  -- they are those of a completion that begins.
  pub data Effect (w : World idb) (old : Option Badge) (v : World idb) (new : Option Badge)
      : Type 0 where
    keeps :
        w.streaming ≡ v.streaming
        → w.streaming_id ≡ v.streaming_id
        → w.controller ≡ v.controller
        → old ≡ new
        → Effect w old v new
    clears : v.streaming ≡ false → v.streaming_id ≡ none → v.controller ≡ none → Effect w old v new
    begins :
        (b : Badge)
        → new ≡ some b
        → v.streaming_id ≡ some b.0
        → v.controller ≡ some b.1
        → Effect w old v new

  abbrev CallEffect : World idb → Next idb → Type 0
  CallEffect w n = Effect w none n.0 (badge? n.1)

  begin-Effect :
      (settings : Settings) (u w : World idb) (chat_id model : Text) (ticks : Ticks)
      → Alike u w
      → (let n = begin idb settings w chat_id model ticks in Effect u none n.0 (badge? n.1))
  unfolding begin start placeholder
  begin-Effect settings u w chat_id model ticks (a, b, c) =
      elim (Option-cases (active_provider settings)) [
        | inl e ↦ rw (begin, e) (keeps a b c refl)
        | inr (p, e) ↦ rw (begin, e) (begins (ticks.assistant_id, w.next_controller) refl refl refl)
      ]

  fail_read-Effect :
      (w : World idb) (run : Run) (e : Thrown)
      → (let n = fail_read idb w run e in Effect w (some (badge_of run)) n.0 (badge? n.1))
  unfolding fail_read save_answer save_failure finalize
  fail_read-Effect w run abort_error = elim (Bool-cases (is_empty run.accumulated)) [
    | inl e ↦ rw (fail_read, e) (clears refl refl refl)
    | inr e ↦ rw (fail_read, e) (keeps refl refl refl refl)
  ]
  fail_read-Effect w run (api_error m status) = keeps refl refl refl refl
  fail_read-Effect w run (type_error m) = keeps refl refl refl refl
  fail_read-Effect w run (other_error m) = keeps refl refl refl refl
  fail_read-Effect w run not_an_error = keeps refl refl refl refl

  touch-Effect :
      (w : World idb) (run : Run) (now : ℕ)
      → (let n = touch idb w run now in Effect w (some (badge_of run)) n.0 (badge? n.1))
  unfolding touch finalize
  touch-Effect w run now = elim (Option-cases (find (λ c. same c.id run.chat_id) w.chats)) [
    | inl e ↦ rw (touch, e) (clears refl refl refl)
    | inr (c, e) ↦ rw (touch, e) (keeps refl refl refl refl)
  ]

  resume-Effect :
      (settings : Settings) (w : World idb) (t : Task) (ticks : Ticks)
      → (let n = resume idb settings w t ticks in Effect w (badge t) n.0 (badge? n.1))
  unfolding resume ask finalize flush
  resume-Effect settings w (listing chats) ticks = keeps refl refl refl refl
  resume-Effect settings w (selecting id ms) ticks = keeps refl refl refl refl
  resume-Effect settings w (removing id) ticks = keeps refl refl refl refl
  resume-Effect settings w (renaming id updated) ticks = keeps refl refl refl refl
  resume-Effect settings w (opening chat content model send_ticks) ticks = keeps refl refl refl refl
  resume-Effect settings w (asking m model) ticks =
      begin-Effect settings w _ m.chat_id model ticks (refl, refl, refl)
  resume-Effect settings w (dropping chat_id kept model) ticks =
      begin-Effect settings w _ chat_id model ticks (refl, refl, refl)
  resume-Effect settings w (reading run) ticks = keeps refl refl refl refl
  resume-Effect settings w (saving run) ticks = touch-Effect w run ticks.touched
  resume-Effect settings w (touching run updated) ticks = clears refl refl refl
  resume-Effect settings w (failing run message) ticks = clears refl refl refl

  pub Move-Effect :
      {w : World idb} {t : Task} {n : World idb × Option Task}
      → Move idb w t n
      → Effect w (badge t) n.0 (badge? n.1)
  unfolding on_event flush end_read end_fetch save_answer
  Move-Effect {w} (resumes settings t ticks e) = resume-Effect settings w t ticks
  Move-Effect (reports run (Stream.token t)) = keeps refl refl refl refl
  Move-Effect (reports run (Stream.model m)) = keeps refl refl refl refl
  Move-Effect {w} (ends_read run (returned full)) = keeps refl refl refl refl
  Move-Effect {w} (ends_read run (threw e)) = fail_read-Effect w run e
  Move-Effect {w} (ends_fetch run (returned result)) = keeps refl refl refl refl
  Move-Effect {w} (ends_fetch run (threw e)) = fail_read-Effect w run e

  call_send-Effect :
      (settings : Settings) (w : World idb) (text : Text) (ticks : SendTicks)
      → (let n = call_send idb settings w text ticks in Effect w none n.0 (badge? n.1))
  unfolding call_send ask
  call_send-Effect settings w text ticks = elim (Bool-cases (is_empty (trim text) || w.streaming)) [
    | inl off ↦ rw (call_send, off) (keeps refl refl refl refl)
    | inr on ↦ elim (Option-cases (active_provider settings)) [
      | inl e ↦ rw (call_send, on, e) (keeps refl refl refl refl)
      | inr (p, e) ↦
          rw (call_send, on, e)
            (elim (Option-cases (chosen_chat w.active_chat_id)) [
              | inl f ↦ rw f (keeps refl refl refl refl)
              | inr (c, f) ↦ rw f (keeps refl refl refl refl)
            ])
    ]
  ]

  call_regenerate-Effect :
      (settings : Settings) (w : World idb) (ticks : Ticks)
      → (let n = call_regenerate idb settings w ticks in Effect w none n.0 (badge? n.1))
  unfolding call_regenerate
  call_regenerate-Effect settings w ticks = elim (Option-cases (chosen_chat w.active_chat_id)) [
    | inl e ↦ rw (call_regenerate, e) (keeps refl refl refl refl)
    | inr (c, e) ↦
        rw (call_regenerate, e)
          (if_either (CallEffect w) w.streaming (w, none) _ (keeps refl refl refl refl)
            (elim (Option-cases (active_provider settings)) [
              | inl f ↦ rw f (keeps refl refl refl refl)
              | inr (p, f) ↦
                  rw f (elim (Option-cases (find (λ m. is_assistant m.role) (reverse w.messages))) [
                    | inl g ↦ rw g (begin-Effect settings w w c p.model ticks (refl, refl, refl))
                    | inr (last, g) ↦ rw g (keeps refl refl refl refl)
                  ])
            ]))
  ]

  call_select-Effect :
      (w : World idb) (c : Option Text)
      → (let n = call_select idb w c in Effect w none n.0 (badge? n.1))
  unfolding call_select
  call_select-Effect w c = elim (Option-cases (chosen_chat c)) [
    | inl e ↦ rw (call_select, e) (keeps refl refl refl refl)
    | inr (id, e) ↦ rw (call_select, e) (keeps refl refl refl refl)
  ]

  call_rename-Effect :
      (w : World idb) (id title : Text) (now : ℕ)
      → (let n = call_rename idb w id title now in Effect w none n.0 (badge? n.1))
  unfolding call_rename
  call_rename-Effect w id title now = elim (Option-cases (find (λ c. same c.id id) w.chats)) [
    | inl e ↦ rw (call_rename, e) (keeps refl refl refl refl)
    | inr (chat, e) ↦ rw (call_rename, e) (keeps refl refl refl refl)
  ]

  pub Call-Effect :
      {w : World idb} {n : World idb × Option Task} → Call idb w n → Effect w none n.0 (badge? n.1)
  unfolding call_hydrate call_remove new_chat clear_error stop
  Call-Effect hydrates = keeps refl refl refl refl
  Call-Effect {w} (selects c) = call_select-Effect w c
  Call-Effect opens_new = keeps refl refl refl refl
  Call-Effect (removes id) = keeps refl refl refl refl
  Call-Effect {w} (renames id title now) = call_rename-Effect w id title now
  Call-Effect {w} (sends settings text ticks) = call_send-Effect settings w text ticks
  Call-Effect {w} (regenerates settings ticks) = call_regenerate-Effect settings w ticks
  Call-Effect stops = clears refl refl refl
  Call-Effect clears_error = keeps refl refl refl refl
