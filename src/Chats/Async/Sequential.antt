-- ===== src/Chats/Async/Sequential.antt =====
-- The calls of frontend/src/store/useChats.ts with nothing between their awaits are the actions of
-- `Chats.Send` and `Chats.Run`.
use llm_router_ui.Prelude.{
  ℕ, suc, ◌≡◌, refl, ◌||◌, find, reverse, inl, inr, Bool-cases, Option-cases,
}
use llm_router_ui.Text.{Text, is_empty, trim}
use llm_router_ui.Types.{Settings, Provider}
use llm_router_ui.Idb.{ObjectStore}
use llm_router_ui.Settings.{active_provider}
use llm_router_ui.Api.{Platform, Response, Result}
use llm_router_ui.Api.Request.{Request}
use llm_router_ui.Chats.{World}
use llm_router_ui.Chats.Run.{Ticks}
use llm_router_ui.Chats.Send.{
  SendTicks, chosen_chat, is_assistant, open_chat, target_chat, add_user_message, deliver, send,
  drop_last_turn, regenerate,
}
use llm_router_ui.Chats.Async.{over, ask, call_send, call_regenerate, resume}
use llm_router_ui.Chats.Async.Alone.{follow, alone, unless-alone, begin-alone}

module _ (idb : ObjectStore) (platform : Platform) (fetch : Request → Result Response)
    (settings : Settings) where
  ask-alone :
      (k : ℕ) (ticks : Ticks) (w : World idb) (chat_id content : Text) (p : Provider)
      (send_ticks : SendTicks)
      → alone idb platform fetch settings
          (suc (suc (suc (suc k))))
          ticks
          (ask idb w chat_id content p.model send_ticks)
        ≡ over idb (deliver idb platform fetch settings (w, chat_id) content p send_ticks ticks)
  unfolding alone follow resume ask deliver add_user_message
  ask-alone k ticks w chat_id content p send_ticks =
      begin-alone idb platform fetch settings k ticks _ chat_id p.model

  pub send-alone :
      (w : World idb) (text : Text) (send_ticks : SendTicks) (ticks : Ticks)
      → alone idb platform fetch settings 5 ticks (call_send idb settings w text send_ticks)
        ≡ over idb (send idb platform fetch settings w text send_ticks ticks)
  unfolding alone follow resume call_send send target_chat open_chat
  send-alone w text send_ticks ticks = elim (Bool-cases (is_empty (trim text) || w.streaming)) [
    | inl off ↦ rw (call_send, send, off) refl
    | inr on ↦ elim (Option-cases (active_provider settings)) [
      | inl e ↦ rw (call_send, send, on, e) refl
      | inr (p, e) ↦
          rw (call_send, send, on, e)
            (elim (Option-cases (chosen_chat w.active_chat_id)) [
              | inl f ↦
                  rw (target_chat, f)
                    (ask-alone 0 ticks (open_chat idb w (trim text) send_ticks) send_ticks.chat_id
                      (trim text) p send_ticks)
              | inr (c, f) ↦ rw (target_chat, f) (ask-alone 1 ticks w c (trim text) p send_ticks)
            ])
    ]
  ]

  pub regenerate-alone :
      (w : World idb) (ticks : Ticks)
      → alone idb platform fetch settings 4 ticks (call_regenerate idb settings w ticks)
        ≡ over idb (regenerate idb platform fetch settings w ticks)
  unfolding alone follow resume call_regenerate regenerate drop_last_turn
  regenerate-alone w ticks = elim (Option-cases (chosen_chat w.active_chat_id)) [
    | inl e ↦ rw (call_regenerate, regenerate, e) refl
    | inr (c, e) ↦
        rw (call_regenerate, regenerate, e)
          (unless-alone idb platform fetch settings w.streaming 3 ticks w _ _
            (elim (Option-cases (active_provider settings)) [
              | inl f ↦ rw f refl
              | inr (p, f) ↦
                  rw f (elim (Option-cases (find (λ m. is_assistant m.role) (reverse w.messages))) [
                    | inl g ↦
                        rw (drop_last_turn, g)
                          (begin-alone idb platform fetch settings 1 ticks w c p.model)
                    | inr (last, g) ↦
                        rw (drop_last_turn, g)
                          (begin-alone idb platform fetch settings 0 ticks _ c p.model)
                  ])
            ]))
  ]

  -- A call of `send`, of any text and on any world, that nothing comes between from its first await
  -- to its last is the action `send`, and a call of `regenerate` the action `regenerate`, whatever
  -- the settings and the answers of the network: they are over after five and four awaits.
  pub call-alone :
      (w : World idb) (text : Text) (send_ticks : SendTicks) (ticks : Ticks)
      → (alone idb platform fetch settings 5 ticks (call_send idb settings w text send_ticks)
          ≡ over idb (send idb platform fetch settings w text send_ticks ticks))
        × (alone idb platform fetch settings 4 ticks (call_regenerate idb settings w ticks)
            ≡ over idb (regenerate idb platform fetch settings w ticks))
  call-alone w text send_ticks ticks =
      (send-alone w text send_ticks ticks, regenerate-alone w ticks)
