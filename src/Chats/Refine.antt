-- ===== src/Chats/Refine.antt =====
-- `runCompletion` comes to what `settle` says.
use llm_router_ui.Prelude.{◌≡◌, ap, ◌∙◌, false, some, [], All, if◌then◌else◌, Bool-cases, inl, inr}
use llm_router_ui.Text.{Text, same}
use llm_router_ui.Types.{Provider, Settings}
use llm_router_ui.Idb.{ObjectStore}
use llm_router_ui.Settings.{active_provider}
use llm_router_ui.Api.{Platform, Response, Result}
use llm_router_ui.Api.Request.{Request, Options, fetch_completion}
use llm_router_ui.Api.Stream.{stream_completion}
use llm_router_ui.Api.Stream.Tokens.{stream_completion-tokens}
use llm_router_ui.Chats.{World}
use llm_router_ui.Chats.Run.{Ticks, placeholder, options_of, start, finalize, call, run_completion}
use llm_router_ui.Chats.Request.{sent_options}
use llm_router_ui.Chats.Settle.{Outcome, stream_outcome, fetch_outcome, settle}
use llm_router_ui.Chats.Settle.Rendering.{start-shown, on_events-shown}
use llm_router_ui.Chats.Settle.Endings.{streamed-settle, fetched-settle}

module _ (idb : ObjectStore) (platform : Platform) (fetch : Request → Result Response)
    (settings : Settings) where
  -- how the network call ends, streaming or not
  unfoldable pub outcome : Provider → Text → Options → Outcome
  unfolding stream_outcome fetch_outcome
  outcome provider model options =
      if settings.streaming
      then stream_outcome model (stream_completion platform fetch provider options)
      else fetch_outcome model (fetch_completion platform fetch provider options)

  call-settle :
      (w : World idb) (chat_id model : Text) (ticks : Ticks) (provider : Provider)
      (options : Options)
      → All (λ m. same m.id ticks.assistant_id ≡ false) w.messages
      → finalize idb (
          call idb platform fetch settings
            (start idb w chat_id model ticks)
            provider
            options
            ticks.touched)
        ≡ settle idb w
            (placeholder chat_id model ticks)
            ticks.touched
            (outcome provider model options)
  unfolding call outcome
  call-settle w chat_id model ticks provider options fresh =
      rw (start-shown idb w chat_id model ticks) (elim (Bool-cases settings.streaming) [
        | inl on ↦
            let (es, result) = stream_completion platform fetch provider options in
            rw (on, on_events-shown idb w chat_id model ticks fresh [] model es)
              (streamed-settle idb w chat_id model ticks fresh es result ticks.touched
                (stream_completion-tokens platform fetch provider options))
        | inr off ↦ rw off (
            fetched-settle idb w chat_id model ticks fresh
              (fetch_completion platform fetch provider options) ticks.touched)
      ])

  -- With an active provider, and an id for the answer that no shown message has, one completion
  -- leaves exactly the world that the outcome of its one request settles: the token by token
  -- rendering on the way leaves no other trace.
  pub run_completion-settle :
      (w : World idb) (chat_id model : Text) (ticks : Ticks) (provider : Provider)
      → active_provider settings ≡ some provider
      → All (λ m. same m.id ticks.assistant_id ≡ false) w.messages
      → run_completion idb platform fetch settings w chat_id model ticks
        ≡ settle idb w
            (placeholder chat_id model ticks)
            ticks.touched
            (outcome provider model (options_of settings model ticks.assistant_id w.messages))
  unfolding run_completion
  run_completion-settle w chat_id model ticks provider active fresh =
      rw (active, run_completion)
        (call-settle w chat_id model ticks provider _ fresh
          ∙ ap
              (λ o.
                settle idb w (placeholder chat_id model ticks) ticks.touched
                  (outcome provider model o))
              (sent_options idb settings w chat_id model ticks))
