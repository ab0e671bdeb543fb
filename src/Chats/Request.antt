-- ===== src/Chats/Request.antt =====
-- The request of a completion of frontend/src/store/useChats.ts against the messages of the chat.
use llm_router_ui.Prelude.{◌≡◌, List, [], ◌∷◌, ◌++◌, arith}
use llm_router_ui.Text.{Text}
use llm_router_ui.Types.{Message, Settings}
use llm_router_ui.Idb.{ObjectStore}
use llm_router_ui.Chats.{World}
use llm_router_ui.Chats.Run.{Ticks, placeholder, start, history_of, options_of}
use llm_router_ui.Text.Laws.{same_refl}

history_of-placeholder :
    (chat_id model : Text) (ticks : Ticks) (ms : List Message)
    → history_of ticks.assistant_id (ms ++ placeholder chat_id model ticks ∷ [])
      ≡ history_of ticks.assistant_id ms
unfolding history_of placeholder
history_of-placeholder chat_id model ticks [] = rw (same_refl ticks.assistant_id)
history_of-placeholder chat_id model ticks (m ∷ ms) =
    ground (arith, history_of-placeholder chat_id model ticks ms)

module _ (idb : ObjectStore) (settings : Settings) where
  -- The placeholder of the answer is not sent.
  pub sent_options :
      (w : World idb) (chat_id model : Text) (ticks : Ticks)
      → options_of settings model ticks.assistant_id
          (start idb w chat_id model ticks).0.store.messages
        ≡ options_of settings model ticks.assistant_id w.messages
  unfolding options_of start
  sent_options w chat_id model ticks = rw (history_of-placeholder chat_id model ticks w.messages)
