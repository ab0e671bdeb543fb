-- ===== src/Chats/Mirror.antt =====
-- The messages that frontend/src/store/useChats.ts shows against those that frontend/src/lib/db.ts
-- stores for the active chat. An error of the empty text is stored but not shown, so messages are
-- compared as they are seen.
pub mod Stored
pub mod Actions
pub mod Completion
pub mod Sending
pub mod History
pub mod Switching
use llm_router_ui.Prelude.{◌≡◌, Bool, true, Option, none, some, List, [], In}
use llm_router_ui.Text.{Text, same}
use llm_router_ui.Types.{Message}
use llm_router_ui.Idb.{ObjectStore}
use llm_router_ui.Db.{IsKeyed}
use llm_router_ui.Api.Errors.{truthy}
use llm_router_ui.Chats.{World}
use llm_router_ui.Chats.Send.{chosen_chat}

-- a message with an empty error taken for none
unfoldable pub seen : Message → Message
seen m = record m { error = truthy m.error }

module _ (idb : ObjectStore) where
  open idb use {Table, get}

  -- the messages of a chat are those that the table holds for it
  pub record Shows (t : Table Message) (ms : List Message) (chat_id : Text) : Type 0 where
    pub stored :
        (m : Message)
        → In m ms
        → (s : Message) × (get t m.id ≡ some s)
          × (same s.chat_id chat_id ≡ true)
          × (seen s ≡ seen m)
    pub shown :
        (k : Text) (s : Message)
        → get t k ≡ some s
        → same s.chat_id chat_id ≡ true
        → (m : Message) × In m ms × (seen m ≡ seen s)

  pub record IsMirror (w : World idb) : Type 0 where
    pub keyed : IsKeyed idb w.db
    pub blank : chosen_chat w.active_chat_id ≡ none → w.messages ≡ []
    pub active :
        (c : Text) → chosen_chat w.active_chat_id ≡ some c → Shows w.db.messages w.messages c
