-- ===== src/Chats/Settle/Endings.antt =====
-- Each ending of a completion of frontend/src/store/useChats.ts comes to what `settle` says.
use llm_router_ui.Prelude.{
  ℕ, ◌≡◌, refl, ap, ◌∙◌, Bool, true, false, not, Option, none, some, List, [], ◌∷◌, ◌++◌, filter,
  find, All, or_else, Option-cases, inl, inr,
}
use llm_router_ui.Text.{Text, same, is_empty}
use llm_router_ui.Text.Laws.{same_refl}
use llm_router_ui.Types.{Message}
use llm_router_ui.Idb.{ObjectStore}
use llm_router_ui.Db.{save_message}
use llm_router_ui.Api.{
  Result, returned, threw, Thrown, api_error, type_error, abort_error, other_error, not_an_error,
}
use llm_router_ui.Api.Errors.{truthy}
use llm_router_ui.Api.Request.{Completion}
use llm_router_ui.Api.Stream.{Event}
use llm_router_ui.Api.Stream.Tokens.{tokens}
use llm_router_ui.Chats.{World, set_store, touch_chat}
use llm_router_ui.Chats.Run.{
  Run, Ticks, answer, failed_answer, placeholder, error_text, start, flush, complete,
  drop_placeholder, fail, finalize, streamed, fetched,
}
use llm_router_ui.Chats.Settle.{
  last_model, answered, interrupted, broken, thrown_outcome, stream_outcome, fetch_outcome, rested,
  settle,
}
use llm_router_ui.Chats.Settle.Rendering.{
  or_some, run_at, shown, flushed_self, map-flushed, flush-shown,
}

filter_last :
    (p : Message → Bool) (ms : List Message) (m : Message)
    → All (λ k. p k ≡ true) ms
    → p m ≡ false
    → filter p (ms ++ m ∷ []) ≡ ms
unfolding filter
filter_last p [] m h e = rw e
filter_last p (k ∷ ms) m h e = rw h.0 (ap (◌∷◌ k) (filter_last p ms m h.1 e))

or_some-none : (o : Option Text) → or_some o none ≡ o
or_some-none none = refl
or_some-none (some e) = refl

module _ (idb : ObjectStore) where
  finalize-touch_chat :
      (w : World idb) (chat_id : Text) (now : ℕ)
      → finalize idb (touch_chat idb w chat_id now) ≡ touch_chat idb (finalize idb w) chat_id now
  unfolding finalize touch_chat
  finalize-touch_chat w chat_id now =
      elim (Option-cases (find (λ c. same c.id chat_id) w.store.chats)) [
        | inl e ↦ rw (e, touch_chat)
        | inr (c, e) ↦ rw (e, touch_chat)
      ]

  module _ (w : World idb) (chat_id model : Text) (ticks : Ticks)
      (fresh : All (λ m. same m.id ticks.assistant_id ≡ false) w.messages) where
    abbrev run_of : Text → Text → Run
    run_of = run_at idb w chat_id model ticks

    abbrev shown_at : Text → Text → World idb
    shown_at = shown idb w chat_id model ticks

    complete-settle :
        (content routed : Text) (now : ℕ)
        → finalize idb (complete idb (shown_at content routed) (run_of content routed) now)
          ≡ settle idb w (placeholder chat_id model ticks) now (answered content routed)
    unfolding complete settle answer start placeholder
    complete-settle content routed now =
        finalize-touch_chat _ chat_id now
        ∙ ap (λ v. touch_chat idb v chat_id now) (unfold finalize in refl)

    kept_fresh :
        (ms : List Message)
        → All (λ m. same m.id ticks.assistant_id ≡ false) ms
        → All (λ m. not (same m.id ticks.assistant_id) ≡ true) ms
    kept_fresh [] h = tt
    kept_fresh (m ∷ ms) h = (rw h.0, kept_fresh ms h.1)

    drop_placeholder-settle :
        (content routed : Text)
        → finalize idb (drop_placeholder idb (shown_at content routed) (run_of content routed))
          ≡ rested idb w w.messages none
    unfolding drop_placeholder rested start finalize
    drop_placeholder-settle content routed =
        ap (λ ms. rested idb w ms none)
          (filter_last (λ m. not (same m.id ticks.assistant_id)) w.messages
            (answer (run_of content routed)) (kept_fresh w.messages fresh)
            (unfold answer placeholder in rw (same_refl ticks.assistant_id)))

    abort-settle :
        (content routed : Text) (now : ℕ)
        → finalize idb (fail idb (shown_at content routed) (run_of content routed) abort_error now)
          ≡ settle idb w (placeholder chat_id model ticks) now (interrupted content routed)
    unfolding fail settle is_empty
    abort-settle [] routed now = drop_placeholder-settle [] routed
    abort-settle (c ∷ s) routed now = complete-settle (c ∷ s) routed now

    -- what `fail` does about an error that is no abort
    abbrev broken_world : Run → Text → World idb → World idb
    broken_world run message v =
        let saved = record v { db = save_message idb v.db (failed_answer run message) } in
        let flushed_store = flush idb saved run (some message) in
        set_store idb flushed_store (record flushed_store.store { error = some message })

    broken-settle :
        (content routed error : Text) (now : ℕ)
        → finalize idb (broken_world (run_of content routed) error (shown_at content routed))
          ≡ settle idb w (placeholder chat_id model ticks) now (broken content routed error)
    unfolding settle start failed_answer answer flush finalize placeholder
    broken-settle content routed error now =
        ap
          (λ ms. record (rested idb w ms (some error)) {
            db = save_message idb w.db (failed_answer (run_of content routed) error);
          })
          (map-flushed idb w chat_id model ticks fresh (run_of content routed) (some error)
              w.messages _ refl fresh
            ∙ ap (λ m. w.messages ++ m ∷ [])
                (flushed_self idb w chat_id model ticks fresh content routed content routed
                    (some error)
                  ∙ ap (λ e. record (answer (run_of content routed)) { error = e })
                      (or_some-none (truthy (some error)))))

    error-settle :
        (content routed : Text) (e : Thrown) (now : ℕ)
        → finalize idb (fail idb (shown_at content routed) (run_of content routed) e now)
          ≡ settle idb w (placeholder chat_id model ticks) now (thrown_outcome e content routed)
    unfolding thrown_outcome fail error_text
    error-settle content routed abort_error now = abort-settle content routed now
    error-settle content routed (api_error m status) now = broken-settle content routed m now
    error-settle content routed (type_error m) now = broken-settle content routed _ now
    error-settle content routed (other_error m) now = broken-settle content routed m now
    error-settle content routed not_an_error now = broken-settle content routed _ now

    pub streamed-settle :
        (es : List Event) (result : Result Text) (now : ℕ)
        → ((text : Text) → result ≡ returned text → text ≡ tokens es)
        → finalize idb (
            streamed idb
              (shown_at (tokens es) (last_model model es), run_of (tokens es) (last_model model es))
              result
              now)
          ≡ settle idb w (placeholder chat_id model ticks) now (stream_outcome model (es, result))
    unfolding stream_outcome
    streamed-settle es (returned full) now told =
        rw (told full refl) (complete-settle (tokens es) (last_model model es) now)
    streamed-settle es (threw e) now told = error-settle (tokens es) (last_model model es) e now

    pub fetched-settle :
        (result : Result Completion) (now : ℕ)
        → finalize idb (fetched idb (shown_at [] model, run_of [] model) result now)
          ≡ settle idb w (placeholder chat_id model ticks) now (fetch_outcome model result)
    unfolding fetch_outcome
    fetched-settle (returned r) now =
        rw
          (flush-shown idb w chat_id model ticks fresh [] model r.content
            (or_else (truthy r.model) model))
          (complete-settle r.content (or_else (truthy r.model) model) now)
    fetched-settle (threw e) now = error-settle [] model e now
