-- ===== src/Chats/Mirror/Sending.antt =====
-- `send` keeps the shown messages those of the active chat, which it may just have created.
use llm_router_ui.Prelude.{
  ◌≡◌, refl, subst, ◌∙◌, false, ◌||◌, none, some, Bool-cases, arith, Option-cases, inl, inr,
}
use llm_router_ui.Text.{Text, same, is_empty, trim}
use llm_router_ui.Text.Laws.{same_refl}
use llm_router_ui.Types.{Message, Provider, Settings}
use llm_router_ui.Idb.{ObjectStore}
use llm_router_ui.Db.{save_message, save_chat}
use llm_router_ui.Db.Keys.{Step-IsKeyed, saves_chat}
use llm_router_ui.Settings.{active_provider}
use llm_router_ui.Api.{Platform, Response, Result}
use llm_router_ui.Api.Request.{Request}
use llm_router_ui.Chats.{World}
use llm_router_ui.Chats.Run.{Ticks}
use llm_router_ui.Chats.Send.{
  SendTicks, chosen_chat, open_chat, target_chat, user_message, add_user_message, deliver, send,
}
use llm_router_ui.Chats.Mirror.{IsMirror}
use llm_router_ui.Chats.Mirror.Stored.{nil-Shows}
use llm_router_ui.Chats.Mirror.Actions.{Alike-IsMirror}
use llm_router_ui.Chats.Mirror.Completion.{added-IsMirror, run_completion-IsMirror}

chosen_chat-some : (c : Text) → is_empty c ≡ false → chosen_chat (some c) ≡ some c
unfolding chosen_chat
chosen_chat-some c h = rw h

module _ (idb : ObjectStore) where
  open idb use {get, put, get-put}

  -- what `uid` promises of the ids of one call
  pub record IsFresh (w : World idb) (ticks : SendTicks) (run_ticks : Ticks) : Type 0 where
    pub user : get w.db.messages ticks.user_id ≡ none
    pub assistant : get w.db.messages run_ticks.assistant_id ≡ none
    pub differ : same ticks.user_id run_ticks.assistant_id ≡ false
    pub chat : is_empty ticks.chat_id ≡ false
    pub chat_unused :
        (k : Text) (s : Message)
        → get w.db.messages k ≡ some s
        → same s.chat_id ticks.chat_id ≡ false

  open_chat-IsMirror :
      (w : World idb) (content : Text) (ticks : SendTicks) (run_ticks : Ticks)
      → IsFresh w ticks run_ticks
      → chosen_chat w.active_chat_id ≡ none
      → IsMirror idb w
      → IsMirror idb (open_chat idb w content ticks)
  unfolding open_chat save_chat
  open_chat-IsMirror w content ticks run_ticks fresh e h =
      let chosen = chosen_chat-some ticks.chat_id fresh.chat in
      record {
        keyed = Step-IsKeyed idb (saves_chat _) h.keyed;
        blank = λ f. grind arith;
        active = λ c f.
            let which : ticks.chat_id ≡ c = grind arith in
            rw (h.blank e) (
              nil-Shows idb w.db.messages c (
                subst
                  (λ c.
                    (k : Text) (s : Message)
                    → get w.db.messages k ≡ some s
                    → same s.chat_id c ≡ false)
                  which fresh.chat_unused));
      }

  add_user_message-unused :
      (w : World idb) (m : Message) (id : Text)
      → same m.id id ≡ false
      → get w.db.messages id ≡ none
      → get (add_user_message idb w m).db.messages id ≡ none
  unfolding add_user_message save_message
  add_user_message-unused w m id ne unused = get-put w.db.messages m.id id m ∙ rw (ne, unused)

  module _ (platform : Platform) (fetch : Request → Result Response) (settings : Settings) where
    deliver-IsMirror :
        (w : World idb) (c content : Text) (provider : Provider) (ticks : SendTicks)
        (run_ticks : Ticks)
        → IsMirror idb w
        → chosen_chat w.active_chat_id ≡ some c
        → get w.db.messages ticks.user_id ≡ none
        → get w.db.messages run_ticks.assistant_id ≡ none
        → same ticks.user_id run_ticks.assistant_id ≡ false
        → IsMirror idb (deliver idb platform fetch settings (w, c) content provider ticks run_ticks)
    unfolding deliver add_user_message
    deliver-IsMirror w c content provider ticks run_ticks h active user assistant differ =
        let m = user_message idb c content ticks in
        run_completion-IsMirror idb (add_user_message idb w m) c
          (added-IsMirror idb w c h active _ m m refl refl refl user (same_refl c) refl refl) active
          platform fetch settings provider.model run_ticks
          (add_user_message-unused w m run_ticks.assistant_id differ assistant)

    pub send-IsMirror :
        (w : World idb) (text : Text) (ticks : SendTicks) (run_ticks : Ticks)
        → IsFresh w ticks run_ticks
        → IsMirror idb w
        → IsMirror idb (send idb platform fetch settings w text ticks run_ticks)
    unfolding send target_chat open_chat save_chat
    send-IsMirror w text ticks run_ticks fresh h =
        elim (Bool-cases (is_empty (trim text) || w.streaming)) [
          | inl off ↦ rw (send, off) h
          | inr on ↦ elim (Option-cases (active_provider settings)) [
            | inl e ↦ rw (send, on, e) (Alike-IsMirror idb w _ (refl, refl, refl) h.keyed h)
            | inr (p, e) ↦
                rw (send, on, e)
                  (elim (Option-cases (chosen_chat w.active_chat_id)) [
                    | inl f ↦
                        rw (target_chat, f)
                          (deliver-IsMirror (open_chat idb w (trim text) ticks) ticks.chat_id
                            (trim text) p ticks run_ticks
                            (open_chat-IsMirror w (trim text) ticks run_ticks fresh f h)
                            (chosen_chat-some ticks.chat_id fresh.chat) fresh.user fresh.assistant
                            fresh.differ)
                    | inr (c, f) ↦
                        rw (target_chat, f)
                          (deliver-IsMirror w c (trim text) p ticks run_ticks h f fresh.user
                            fresh.assistant fresh.differ)
                  ])
          ]
        ]
