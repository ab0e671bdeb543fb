-- ===== src/Chats/Async/Overlap.antt =====
-- Two calls of `regenerate` in frontend/src/store/useChats.ts, the second before the first has come
-- to its completion.
use llm_router_ui.Prelude.{◌≡◌, false, some, List, find, filter, ltb, reverse}
use llm_router_ui.Text.{Text}
use llm_router_ui.Types.{Message, Provider, Settings}
use llm_router_ui.Idb.{ObjectStore}
use llm_router_ui.Settings.{active_provider}
use llm_router_ui.Chats.{World}
use llm_router_ui.Chats.Run.{Run}
use llm_router_ui.Chats.Send.{chosen_chat, is_assistant}
use llm_router_ui.Chats.Async.System.{System}

abbrev pub kept_before : List Message → Message → List Message
kept_before messages last = filter (λ m. ltb m.created_at last.created_at) messages

module _ (idb : ObjectStore) where
  -- a page on which `regenerate` has an answer to drop, and may run
  pub record CanDrop (settings : Settings) (w : World idb) (c : Text) (p : Provider)
      (last : Message) : Type 0 where
    pub chat : chosen_chat w.active_chat_id ≡ some c
    pub idle : w.streaming ≡ false
    pub provider : active_provider settings ≡ some p
    pub last_turn : find (λ m. is_assistant m.role) (reverse w.messages) ≡ some last
