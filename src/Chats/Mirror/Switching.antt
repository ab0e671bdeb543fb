-- ===== src/Chats/Mirror/Switching.antt =====
-- `selectChat` of frontend/src/store/useChats.ts while `send` waits for the user's message to be
-- saved.
use llm_router_ui.Prelude.{◌≡◌, refl, ◌∙◌, false, some, [], ◌∷◌, In, ℕ, In-append_right, inl, arith}
use llm_router_ui.Text.{Text, same, is_empty}
use llm_router_ui.Text.Laws.{same_refl}
use llm_router_ui.Types.{Message}
use llm_router_ui.Idb.{ObjectStore}
use llm_router_ui.Db.{save_message}
use llm_router_ui.Chats.{World, select_chat}
use llm_router_ui.Chats.Send.{chosen_chat, save_user_message, show_user_message}
use llm_router_ui.Chats.Mirror.{Shows, IsMirror}

module _ (idb : ObjectStore) where
  open idb use {get, get-put}

  -- a message that is stored for another chat is no message of this one
  not_shown :
      (w : World idb) (m : Message) (c : Text)
      → get w.db.messages m.id ≡ some m
      → same m.chat_id c ≡ false
      → In m w.messages
      → ¬ Shows idb w.db.messages w.messages c
  not_shown w m c saved other shown h = let (s, e, ours, q) = h.stored m shown in grind arith

  -- If another chat is selected after a user's message is saved and before it is shown, the
  -- message appears in the chat that was selected: what is shown is not what is stored for it.
  pub show_user_message-select_chat :
      (w : World idb) (m : Message) (code : ℕ) (rest : Text)
      → same m.chat_id (code ∷ rest) ≡ false
      → ¬ IsMirror idb (
          show_user_message idb
            (select_chat idb (save_user_message idb w m) (some (code ∷ rest)))
            m)
  unfolding select_chat save_message chosen_chat is_empty
  show_user_message-select_chat w m code rest other h =
      let chosen = select_chat idb (save_user_message idb w m) (some (code ∷ rest)) in
      not_shown (show_user_message idb chosen m) m (code ∷ rest)
        (get-put w.db.messages m.id m.id m ∙ rw (same_refl m.id)) other
        (In-append_right m chosen.messages (m ∷ []) (inl refl)) (h.active (code ∷ rest) refl)
