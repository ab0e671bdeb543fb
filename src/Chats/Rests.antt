-- ===== src/Chats/Rests.antt =====
-- No action of frontend/src/store/useChats.ts leaves the store busy, once it is over.
use llm_router_ui.Prelude.{
  ◌≡◌, refl, sym, ◌∙◌, false, ◌||◌, Option, none, some, [], ◌∷◌, ℕ, find, reverse, Option-cases,
  Bool-cases, if_either, inl, inr,
}
use llm_router_ui.Text.{Text, same, is_empty, trim}
use llm_router_ui.Types.{Settings}
use llm_router_ui.Idb.{ObjectStore}
use llm_router_ui.Settings.{active_provider}
use llm_router_ui.Api.{Platform, Response, Result}
use llm_router_ui.Api.Request.{Request}
use llm_router_ui.Chats.{
  World, hydrate, select_chat, new_chat, remove_chat, rename_chat, clear_error,
}
use llm_router_ui.Chats.Run.{Ticks, finalize, run_completion}
use llm_router_ui.Chats.Send.{
  chosen_chat, is_assistant, SendTicks, stop, open_chat, target_chat, add_user_message,
  drop_last_turn, deliver, send, regenerate,
}
use llm_router_ui.Chats.Mirror.History.{
  Reach, opens, follows, Step, hydrates, selects, opens_new, removes, renames, sends, regenerates,
  stops, clears_error,
}

module _ (idb : ObjectStore) where
  pub record Rests (w : World idb) : Type 0 where
    pub streaming : w.streaming ≡ false
    pub streaming_id : w.streaming_id ≡ none
    pub controller : w.controller ≡ none

  -- a change of other fields
  still :
      (v w : World idb)
      → v.streaming ≡ w.streaming
      → v.streaming_id ≡ w.streaming_id
      → v.controller ≡ w.controller
      → Rests v
      → Rests w
  still v w a b c h = record {
    streaming = sym a ∙ h.streaming;
    streaming_id = sym b ∙ h.streaming_id;
    controller = sym c ∙ h.controller;
  }

  rename_chat-Rests :
      (w : World idb) (c title : Text) (now : ℕ) → Rests w → Rests (rename_chat idb w c title now)
  unfolding rename_chat
  rename_chat-Rests w c title now h = elim (Option-cases (find (λ x. same x.id c) w.chats)) [
    | inl e ↦ rw (rename_chat, e) h
    | inr (x, e) ↦ rw (rename_chat, e) (still w _ refl refl refl h)
  ]

  select_chat-Rests : (w : World idb) (c : Option Text) → Rests w → Rests (select_chat idb w c)
  unfolding select_chat
  select_chat-Rests w none h = still w _ refl refl refl h
  select_chat-Rests w (some []) h = still w _ refl refl refl h
  select_chat-Rests w (some (k ∷ c)) h = still w _ refl refl refl h

  drop_last_turn-Rests : (w : World idb) (c : Text) → Rests w → Rests (drop_last_turn idb w c)
  unfolding drop_last_turn
  drop_last_turn-Rests w c h =
      elim (Option-cases (find (λ m. is_assistant m.role) (reverse w.messages))) [
        | inl e ↦ rw (drop_last_turn, e) h
        | inr (last, e) ↦ rw (drop_last_turn, e) (still w _ refl refl refl h)
      ]

  module _ (platform : Platform) (fetch : Request → Result Response) (settings : Settings) where
    -- however the request ends
    run_completion-Rests :
        (w : World idb) (c model : Text) (ticks : Ticks)
        → Rests w
        → Rests (run_completion idb platform fetch settings w c model ticks)
    unfolding run_completion finalize
    run_completion-Rests w c model ticks h = elim (Option-cases (active_provider settings)) [
      | inl e ↦ rw (run_completion, e) h
      | inr (p, e) ↦
          rw (run_completion, e)
            (record { streaming = refl; streaming_id = refl; controller = refl })
    ]

    regenerate-Rests :
        (w : World idb) (ticks : Ticks)
        → Rests w
        → Rests (regenerate idb platform fetch settings w ticks)
    unfolding regenerate
    regenerate-Rests w ticks h = elim (Option-cases (chosen_chat w.active_chat_id)) [
      | inl e ↦ rw (regenerate, e) h
      | inr (c, e) ↦
          rw (regenerate, e)
            (if_either Rests w.streaming w _ h (elim (Option-cases (active_provider settings)) [
              | inl f ↦ rw f (still w _ refl refl refl h)
              | inr (p, f) ↦ rw f (
                  run_completion-Rests (drop_last_turn idb w c) c p.model ticks
                    (drop_last_turn-Rests w c h))
            ]))
    ]

    send-Rests :
        (w : World idb) (text : Text) (ticks : SendTicks) (run_ticks : Ticks)
        → Rests w
        → Rests (send idb platform fetch settings w text ticks run_ticks)
    unfolding send target_chat open_chat deliver add_user_message
    send-Rests w text ticks run_ticks h = elim (Bool-cases (is_empty (trim text) || w.streaming)) [
      | inl off ↦ rw (send, off) h
      | inr on ↦ elim (Option-cases (active_provider settings)) [
        | inl e ↦ rw (send, on, e) (still w _ refl refl refl h)
        | inr (p, e) ↦
            rw (send, on, e)
              (elim (Option-cases (chosen_chat w.active_chat_id)) [
                | inl f ↦
                    rw (target_chat, f)
                      (run_completion-Rests _ ticks.chat_id p.model run_ticks
                        (still w _ refl refl refl h))
                | inr (c, f) ↦
                    rw (target_chat, f)
                      (run_completion-Rests _ c p.model run_ticks (still w _ refl refl refl h))
              ])
      ]
    ]

  module _ (platform : Platform) where
    pub Step-Rests : {v w : World idb} → Step idb platform v w → Rests v → Rests w
    unfolding hydrate new_chat remove_chat clear_error stop
    Step-Rests {v} hydrates h = still v _ refl refl refl h
    Step-Rests {v} (selects c) h = select_chat-Rests v c h
    Step-Rests {v} opens_new h = still v _ refl refl refl h
    Step-Rests {v} (removes c) h = still v _ refl refl refl h
    Step-Rests {v} (renames c title now) h = rename_chat-Rests v c title now h
    Step-Rests {v} (sends fetch settings text ticks run_ticks fresh) h =
        send-Rests platform fetch settings v text ticks run_ticks h
    Step-Rests {v} (regenerates fetch settings ticks unused) h =
        regenerate-Rests platform fetch settings v ticks h
    Step-Rests stops h = record { streaming = refl; streaming_id = refl; controller = refl }
    Step-Rests {v} clears_error h = still v _ refl refl refl h

    -- Along any history of actions that run one after the other, whatever the network answers or
    -- throws, no action leaves the store streaming, a message marked as being written, or a
    -- controller behind.
    pub Reach-Rests : {w : World idb} → Reach idb platform w → Rests w
    Reach-Rests (opens r) = record { streaming = refl; streaming_id = refl; controller = refl }
    Reach-Rests (follows r s) = Step-Rests s (Reach-Rests r)
