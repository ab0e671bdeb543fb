-- ===== src/Chats/Async/Alone.antt =====
-- `runCompletion` of frontend/src/store/useChats.ts with nothing between its awaits, and the
-- network that answers it.
use llm_router_ui.Prelude.{
  ℕ, zero, suc, ◌≡◌, refl, ap, ◌∙◌, Bool, true, false, none, some, find, inl, inr, Bool-cases,
  Option-cases, if◌then◌else◌,
}
use llm_router_ui.Text.{Text, same, is_empty}
use llm_router_ui.Types.{Settings, Provider}
use llm_router_ui.Idb.{ObjectStore}
use llm_router_ui.Settings.{active_provider}
use llm_router_ui.Api.{
  Platform, Response, Result, returned, threw, Thrown, abort_error, api_error, type_error,
  other_error, not_an_error,
}
use llm_router_ui.Api.Request.{Request, Completion, fetch_completion}
use llm_router_ui.Api.Stream.{stream_completion}
use llm_router_ui.Chats.{World, touch_chat}
use llm_router_ui.Chats.Run.{
  Run, Ticks, options_of, start, placeholder, on_events, complete, fail, finalize, streamed,
  fetched, call, run_completion,
}
use llm_router_ui.Chats.Async.{
  Task, Next, over, reading, begin, save_answer, save_failure, fail_read, end_read, end_fetch,
  touch, resume,
}

module _ (idb : ObjectStore) (platform : Platform) (fetch : Request → Result Response)
    (settings : Settings) where
  -- the network answers a completion, all at once
  unfoldable pub hear : World idb → Run → Provider → Next idb
  unfolding on_events end_read end_fetch options_of
  hear w run p =
      let options = options_of settings run.routed_model run.assistant.id w.messages in
      if settings.streaming
      then (let (events, result) = stream_completion platform fetch p options in
          let read = on_events idb (w, run) events in end_read idb read.0 read.1 result)
      else end_fetch idb w run (fetch_completion platform fetch p options)

  unfoldable pub follow : World idb → Task → Ticks → Next idb
  unfolding hear resume
  follow w (reading run) ticks = elim (active_provider settings) [
    | none ↦ (w, some (reading run))
    | some p ↦ hear w run p
  ]
  follow w t ticks = resume idb settings w t ticks

  -- a call that nothing comes between, for a number of awaits
  unfoldable pub alone : ℕ → Ticks → Next idb → Next idb
  unfolding follow
  alone zero ticks n = n
  alone (suc k) ticks (w, none) = (w, none)
  alone (suc k) ticks (w, some t) = alone k ticks (follow w t ticks)

  alone-over : (k : ℕ) (ticks : Ticks) (w : World idb) → alone k ticks (w, none) ≡ over idb w
  unfolding alone
  alone-over zero ticks w = refl
  alone-over (suc k) ticks w = refl

  touch-alone :
      (k : ℕ) (ticks : Ticks) (w : World idb) (run : Run)
      → alone (suc k) ticks (touch idb w run ticks.touched)
        ≡ over idb (finalize idb (touch_chat idb w run.chat_id ticks.touched))
  unfolding alone touch follow resume touch_chat finalize
  touch-alone k ticks w run = elim (Option-cases (find (λ c. same c.id run.chat_id) w.chats)) [
    | inl e ↦ rw (touch, touch_chat, e) refl
    | inr (c, e) ↦ rw (touch, touch_chat, e) (alone-over k ticks _)
  ]

  save_answer-alone :
      (k : ℕ) (ticks : Ticks) (w : World idb) (run : Run)
      → alone (suc (suc k)) ticks (save_answer idb w run)
        ≡ over idb (finalize idb (complete idb w run ticks.touched))
  unfolding alone save_answer follow resume complete
  save_answer-alone k ticks w run = touch-alone k ticks _ run

  fail_read-alone :
      (k : ℕ) (ticks : Ticks) (w : World idb) (run : Run) (e : Thrown)
      → alone (suc (suc k)) ticks (fail_read idb w run e)
        ≡ over idb (finalize idb (fail idb w run e ticks.touched))
  unfolding alone save_failure follow resume fail fail_read
  fail_read-alone k ticks w run abort_error = elim (Bool-cases (is_empty run.accumulated)) [
    | inl e ↦ rw (fail_read, fail, e) refl
    | inr e ↦ rw (fail_read, fail, e) (save_answer-alone k ticks w run)
  ]
  fail_read-alone k ticks w run (api_error m status) = alone-over (suc k) ticks _
  fail_read-alone k ticks w run (type_error m) = alone-over (suc k) ticks _
  fail_read-alone k ticks w run (other_error m) = alone-over (suc k) ticks _
  fail_read-alone k ticks w run not_an_error = alone-over (suc k) ticks _

  end_read-alone :
      (k : ℕ) (ticks : Ticks) (w : World idb) (run : Run) (result : Result Text)
      → alone (suc (suc k)) ticks (end_read idb w run result)
        ≡ over idb (finalize idb (streamed idb (w, run) result ticks.touched))
  unfolding end_read
  end_read-alone k ticks w run (returned full) = save_answer-alone k ticks w _
  end_read-alone k ticks w run (threw e) = fail_read-alone k ticks w run e

  end_fetch-alone :
      (k : ℕ) (ticks : Ticks) (w : World idb) (run : Run) (result : Result Completion)
      → alone (suc (suc k)) ticks (end_fetch idb w run result)
        ≡ over idb (finalize idb (fetched idb (w, run) result ticks.touched))
  unfolding end_fetch
  end_fetch-alone k ticks w run (returned result) = save_answer-alone k ticks _ _
  end_fetch-alone k ticks w run (threw e) = fail_read-alone k ticks w run e

  either-alone :
      (b : Bool) (k : ℕ) (ticks : Ticks) (x y : Next idb) (u v : World idb)
      → alone k ticks x ≡ over idb (finalize idb u)
      → alone k ticks y ≡ over idb (finalize idb v)
      → alone k ticks (if b then x else y) ≡ over idb (finalize idb (if b then u else v))
  either-alone true k ticks x y u v p q = p
  either-alone false k ticks x y u v p q = q

  pub unless-alone :
      (b : Bool) (k : ℕ) (ticks : Ticks) (w : World idb) (x : Next idb) (v : World idb)
      → alone (suc k) ticks x ≡ over idb v
      → alone (suc k) ticks (if b then (w, none) else x) ≡ over idb (if b then w else v)
  unfolding alone
  unless-alone true k ticks w x v p = refl
  unless-alone false k ticks w x v p = p

  hear-alone :
      (k : ℕ) (ticks : Ticks) (w : World idb) (run : Run) (p : Provider)
      → alone (suc (suc k)) ticks (hear w run p)
        ≡ over idb (
            finalize idb (
              call idb platform fetch settings
                (w, run)
                p
                (options_of settings run.routed_model run.assistant.id w.messages)
                ticks.touched))
  unfolding hear call
  hear-alone k ticks w run p =
      let options = options_of settings run.routed_model run.assistant.id w.messages in
      let streaming = stream_completion platform fetch p options in
      let read = on_events idb (w, run) streaming.0 in
      let whole = fetch_completion platform fetch p options in
      either-alone settings.streaming (suc (suc k)) ticks _ _
        (streamed idb read streaming.1 ticks.touched) (fetched idb (w, run) whole ticks.touched)
        (end_read-alone k ticks read.0 read.1 streaming.1) (end_fetch-alone k ticks w run whole)

  follow-reading :
      (w : World idb) (run : Run) (p : Provider) (ticks : Ticks)
      → active_provider settings ≡ some p
      → follow w (reading run) ticks ≡ hear w run p
  unfolding follow
  follow-reading w run p ticks e = rw (follow, e) refl

  reading-alone :
      (k : ℕ) (ticks : Ticks) (w : World idb) (run : Run) (p : Provider)
      → active_provider settings ≡ some p
      → alone (suc (suc (suc k))) ticks (w, some (reading run))
        ≡ over idb (
            finalize idb (
              call idb platform fetch settings
                (w, run)
                p
                (options_of settings run.routed_model run.assistant.id w.messages)
                ticks.touched))
  unfolding alone
  reading-alone k ticks w run p e =
      ap (alone (suc (suc k)) ticks) (follow-reading w run p ticks e) ∙ hear-alone k ticks w run p

  pub begin-alone :
      (k : ℕ) (ticks : Ticks) (w : World idb) (chat_id model : Text)
      → alone (suc (suc (suc k))) ticks (begin idb settings w chat_id model ticks)
        ≡ over idb (run_completion idb platform fetch settings w chat_id model ticks)
  unfolding alone follow begin run_completion start placeholder
  begin-alone k ticks w chat_id model = elim (Option-cases (active_provider settings)) [
    | inl e ↦ rw (begin, run_completion, e) refl
    | inr (p, e) ↦ rw (begin, run_completion, e) (reading-alone k ticks _ _ p e)
  ]
