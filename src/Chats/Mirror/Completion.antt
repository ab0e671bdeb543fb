-- ===== src/Chats/Mirror/Completion.antt =====
-- A completion, whatever its outcome, keeps the shown messages those of the active chat; so do
-- `send` and `regenerate`.
use llm_router_ui.Prelude.{
  ◌≡◌, refl, subst, ◌∙◌, true, false, none, some, [], ◌∷◌, ◌++◌, ℕ, All, All-of_In, find, filter,
  ltb, if_either, reverse, arith, Bool-cases, Option-cases, inl, inr,
}
use llm_router_ui.Text.{Text, same}
use llm_router_ui.Text.Laws.{same_refl, same→eq}
use llm_router_ui.Types.{Message, Settings}
use llm_router_ui.Idb.{ObjectStore}
use llm_router_ui.Db.{save_message, delete_messages_from}
use llm_router_ui.Db.Keys.{Step-IsKeyed, saves_message, deletes_from}
use llm_router_ui.Db.Deletion.{delete_messages_from_exact}
use llm_router_ui.Settings.{active_provider}
use llm_router_ui.Api.{Platform, Response, Result}
use llm_router_ui.Api.Errors.{truthy}
use llm_router_ui.Api.Request.{Request}
use llm_router_ui.Chats.{World}
use llm_router_ui.Chats.Run.{Ticks, placeholder, run_completion}
use llm_router_ui.Chats.Send.{chosen_chat, is_assistant, drop_last_turn, regenerate}
use llm_router_ui.Chats.Settle.{Outcome, answered, interrupted, broken, settle, recorded, rested}
use llm_router_ui.Chats.Refine.{run_completion-settle}
use llm_router_ui.Chats.Mirror.{seen, Shows, IsMirror}
use llm_router_ui.Chats.Mirror.Stored.{save_message-Shows, delete_messages_from-Shows}
use llm_router_ui.Chats.Mirror.Actions.{Alike-IsMirror, touch_chat-IsMirror}

seen_shown_error :
    (m : Message) (e : Text)
    → seen (record m { error = truthy (some e) }) ≡ seen (record m { error = some e })
unfolding seen truthy
seen_shown_error m e = ground arith

module _ (idb : ObjectStore) where
  open idb use {get}

  pub unused_absent :
      (w : World idb) (id : Text)
      → IsMirror idb w
      → get w.db.messages id ≡ none
      → All (λ m. same m.id id ≡ false) w.messages
  unused_absent w id h unused = elim (Option-cases (chosen_chat w.active_chat_id)) [
    | inl e ↦ rw (h.blank e) tt
    | inr (c, e) ↦ All-of_In _ w.messages (λ m k. elim (Bool-cases (same m.id id)) [
      | inl hit ↦
          let (s, f, o, q) = (h.active c e).stored m k in let i = same→eq m.id id hit in grind arith
      | inr miss ↦ miss
    ])
  ]

  module _ (w : World idb) (c : Text) (h : IsMirror idb w)
      (active : chosen_chat w.active_chat_id ≡ some c) where
    -- a message that is stored under an unused id and shown at the end
    pub added-IsMirror :
        (v : World idb) (s m : Message)
        → v.active_chat_id ≡ w.active_chat_id
        → v.messages ≡ w.messages ++ m ∷ []
        → v.db ≡ save_message idb w.db s
        → get w.db.messages s.id ≡ none
        → same s.chat_id c ≡ true
        → m.id ≡ s.id
        → seen m ≡ seen s
        → IsMirror idb v
    added-IsMirror v s m a e d unused ours i q = record {
      keyed = rw d (Step-IsKeyed idb (saves_message s) h.keyed);
      blank = λ f. grind arith;
      active = λ k f.
          let which : c ≡ k = grind arith in
          rw (d, e)
            (subst (λ k. Shows idb (save_message idb w.db s).messages (w.messages ++ m ∷ []) k)
              which
              (save_message-Shows idb w.db w.messages c s m (h.active c active) unused ours i q));
    }

    pub settle-IsMirror :
        (m : Message) (now : ℕ) (result : Outcome)
        → get w.db.messages m.id ≡ none
        → same m.chat_id c ≡ true
        → IsMirror idb (settle idb w m now result)
    unfolding settle recorded rested
    settle-IsMirror m now (answered content model) unused ours =
        touch_chat-IsMirror idb _ m.chat_id now
          (added-IsMirror _ _ _ refl refl refl unused ours refl refl)
    settle-IsMirror m now (interrupted [] model) unused ours =
        Alike-IsMirror idb w _ (refl, refl, refl) h.keyed h
    settle-IsMirror m now (interrupted (k ∷ s) model) unused ours =
        touch_chat-IsMirror idb _ m.chat_id now
          (added-IsMirror _ _ _ refl refl refl unused ours refl refl)
    settle-IsMirror m now (broken content model error) unused ours =
        added-IsMirror _ _ _ refl refl refl unused ours refl
          (seen_shown_error (record m { content = content; model = some model }) error)

    pub run_completion-IsMirror :
        (platform : Platform) (fetch : Request → Result Response) (settings : Settings)
        (model : Text) (ticks : Ticks)
        → get w.db.messages ticks.assistant_id ≡ none
        → IsMirror idb (run_completion idb platform fetch settings w c model ticks)
    unfolding run_completion
    run_completion-IsMirror platform fetch settings model ticks unused =
        elim (Option-cases (active_provider settings)) [
          | inl e ↦ rw (run_completion, e) h
          | inr (p, e) ↦
              rw
                (run_completion-settle idb platform fetch settings w c model ticks p e
                  (unused_absent w ticks.assistant_id h unused))
                (settle-IsMirror (placeholder c model ticks) ticks.touched _
                  (unfold placeholder in unused) (unfold placeholder in same_refl c))
        ]

    pub drop_last_turn-IsMirror : IsMirror idb (drop_last_turn idb w c)
    unfolding drop_last_turn
    drop_last_turn-IsMirror =
        elim (Option-cases (find (λ m. is_assistant m.role) (reverse w.messages))) [
          | inl e ↦ rw (drop_last_turn, e) h
          | inr (last, e) ↦
              rw (drop_last_turn, e)
                (record {
                  keyed = Step-IsKeyed idb (deletes_from c last.created_at) h.keyed;
                  blank = λ f. grind arith;
                  active = λ k f.
                      let which : c ≡ k = grind arith in
                      subst
                        (Shows idb (delete_messages_from idb w.db c last.created_at).messages
                          (filter (λ m. ltb m.created_at last.created_at) w.messages))
                        which
                        (delete_messages_from-Shows idb w.db w.messages c last.created_at h.keyed
                          (h.active c active));
                })
        ]

    drop_last_turn-active : (drop_last_turn idb w c).active_chat_id ≡ w.active_chat_id
    unfolding drop_last_turn
    drop_last_turn-active =
        elim (Option-cases (find (λ m. is_assistant m.role) (reverse w.messages))) [
          | inl e ↦ rw (drop_last_turn, e)
          | inr (last, e) ↦ rw (drop_last_turn, e)
        ]

    drop_last_turn-unused :
        (id : Text)
        → get w.db.messages id ≡ none
        → get (drop_last_turn idb w c).db.messages id ≡ none
    unfolding drop_last_turn
    drop_last_turn-unused id unused =
        elim (Option-cases (find (λ m. is_assistant m.role) (reverse w.messages))) [
          | inl e ↦ rw (drop_last_turn, e) unused
          | inr (last, e) ↦
              rw (drop_last_turn, e)
                (delete_messages_from_exact idb w.db c last.created_at id h.keyed ∙ rw unused)
        ]

  module _ (platform : Platform) (fetch : Request → Result Response) (settings : Settings) where
    pub regenerate-IsMirror :
        (w : World idb) (ticks : Ticks)
        → IsMirror idb w
        → get w.db.messages ticks.assistant_id ≡ none
        → IsMirror idb (regenerate idb platform fetch settings w ticks)
    unfolding regenerate
    regenerate-IsMirror w ticks h unused = elim (Option-cases (chosen_chat w.active_chat_id)) [
      | inl e ↦ rw (regenerate, e) h
      | inr (c, e) ↦
          rw (regenerate, e)
            (if_either (IsMirror idb) w.streaming w _ h
              (elim (Option-cases (active_provider settings)) [
                | inl f ↦ rw f (Alike-IsMirror idb w _ (refl, refl, refl) h.keyed h)
                | inr (p, f) ↦ rw f (
                    run_completion-IsMirror (drop_last_turn idb w c) c
                      (drop_last_turn-IsMirror w c h e) (rw (drop_last_turn-active w c h e) e)
                      platform fetch settings p.model ticks
                      (drop_last_turn-unused w c h e ticks.assistant_id unused))
              ]))
    ]
