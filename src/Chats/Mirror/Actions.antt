-- ===== src/Chats/Mirror/Actions.antt =====
-- Each action on chats and on the selection keeps the shown messages those of the active chat.
use llm_router_ui.Prelude.{
  ◌≡◌, refl, sym, subst, ◌∙◌, false, Option, none, some, [], ◌∷◌, ℕ, find, arith, Bool-cases,
  Option-cases, inl, inr,
}
use llm_router_ui.Text.{Text, same, is_empty}
use llm_router_ui.Idb.{ObjectStore}
use llm_router_ui.Db.{IsKeyed, save_chat, list_messages}
use llm_router_ui.Db.Keys.{Step-IsKeyed, saves_chat, deletes_chat}
use llm_router_ui.Settings.{is_id}
use llm_router_ui.Chats.{
  World, hydrate, select_chat, new_chat, remove_chat, rename_chat, clear_error, touch_chat,
}
use llm_router_ui.Chats.Send.{chosen_chat, stop}
use llm_router_ui.Chats.Mirror.{Shows, IsMirror}
use llm_router_ui.Chats.Mirror.Stored.{list_messages-Shows, delete_chat-Shows}

module _ (idb : ObjectStore) where
  -- a change that leaves alone what the mirror is about
  abbrev pub Alike : World idb → World idb → Type 0
  Alike v w =
      (v.active_chat_id ≡ w.active_chat_id)
      × (v.messages ≡ w.messages)
      × (v.db.messages ≡ w.db.messages)

  pub Alike-IsMirror :
      (v w : World idb) → Alike v w → IsKeyed idb w.db → IsMirror idb v → IsMirror idb w
  Alike-IsMirror v w (a, m, d) keyed h = record {
    keyed = keyed;
    blank = λ e. sym m ∙ h.blank (rw a e);
    active = λ c e. rw (← m, ← d) (h.active c (rw a e));
  }

  pub hydrate-IsMirror : (w : World idb) → IsMirror idb w → IsMirror idb (hydrate idb w)
  unfolding hydrate
  hydrate-IsMirror w h = Alike-IsMirror w _ (refl, refl, refl) h.keyed h

  pub clear_error-IsMirror : (w : World idb) → IsMirror idb w → IsMirror idb (clear_error idb w)
  unfolding clear_error
  clear_error-IsMirror w h = Alike-IsMirror w _ (refl, refl, refl) h.keyed h

  pub stop-IsMirror : (w : World idb) → IsMirror idb w → IsMirror idb (stop idb w)
  unfolding stop
  stop-IsMirror w h = Alike-IsMirror w _ (refl, refl, refl) h.keyed h

  pub touch_chat-IsMirror :
      (w : World idb) (chat_id : Text) (now : ℕ)
      → IsMirror idb w
      → IsMirror idb (touch_chat idb w chat_id now)
  unfolding save_chat touch_chat
  touch_chat-IsMirror w chat_id now h =
      elim (Option-cases (find (λ c. same c.id chat_id) w.chats)) [
        | inl e ↦ rw (touch_chat, e) h
        | inr (c, e) ↦
            rw (touch_chat, e)
              (Alike-IsMirror w _ (refl, refl, refl) (Step-IsKeyed idb (saves_chat _) h.keyed) h)
      ]

  pub rename_chat-IsMirror :
      (w : World idb) (chat_id title : Text) (now : ℕ)
      → IsMirror idb w
      → IsMirror idb (rename_chat idb w chat_id title now)
  unfolding save_chat rename_chat
  rename_chat-IsMirror w chat_id title now h =
      elim (Option-cases (find (λ c. same c.id chat_id) w.chats)) [
        | inl e ↦ rw (rename_chat, e) h
        | inr (c, e) ↦
            rw (rename_chat, e)
              (Alike-IsMirror w _ (refl, refl, refl) (Step-IsKeyed idb (saves_chat _) h.keyed) h)
      ]

  pub new_chat-IsMirror : (w : World idb) → IsMirror idb w → IsMirror idb (new_chat idb w)
  unfolding new_chat chosen_chat
  new_chat-IsMirror w h = record { keyed = h.keyed; blank = λ e. refl; active = λ c e. cc }

  pub select_chat-IsMirror :
      (w : World idb) (c : Option Text) → IsMirror idb w → IsMirror idb (select_chat idb w c)
  unfolding select_chat chosen_chat is_empty
  select_chat-IsMirror w none h = record { keyed = h.keyed; blank = λ e. refl; active = λ c e. cc }
  select_chat-IsMirror w (some []) h = record {
    keyed = h.keyed;
    blank = λ e. refl;
    active = λ c e. cc;
  }
  select_chat-IsMirror w (some (k ∷ c)) h = record {
    keyed = h.keyed;
    blank = λ e. cc;
    active = λ d e.
        let ours : (k ∷ c) ≡ d = cc in
        subst (Shows idb w.db.messages (list_messages idb w.db (k ∷ c))) ours
          (list_messages-Shows idb w.db (k ∷ c) h.keyed);
  }

  chosen_of : (o : Option Text) (c : Text) → chosen_chat o ≡ some c → o ≡ some c
  unfolding chosen_chat
  chosen_of none c e = cc
  chosen_of (some t) c e = ground arith

  other_chat :
      (o : Option Text) (c d : Text) → chosen_chat o ≡ some c → is_id o d ≡ false → same c d ≡ false
  other_chat o c d e f = subst (λ x. is_id x d ≡ false) (chosen_of o c e) f

  pub remove_chat-IsMirror :
      (w : World idb) (d : Text) → IsMirror idb w → IsMirror idb (remove_chat idb w d)
  unfolding remove_chat chosen_chat
  remove_chat-IsMirror w d h = elim (Bool-cases (is_id w.active_chat_id d)) [
    | inl e ↦ rw e (record {
      keyed = Step-IsKeyed idb (deletes_chat d) h.keyed;
      blank = λ e. refl;
      active = λ c e. cc;
    })
    | inr e ↦ rw e (record {
      keyed = Step-IsKeyed idb (deletes_chat d) h.keyed;
      blank = h.blank;
      active = λ c f.
          delete_chat-Shows idb w.db w.messages c d (h.active c f)
            (other_chat w.active_chat_id c d f e);
    })
  ]
