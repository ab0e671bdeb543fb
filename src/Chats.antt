-- ===== src/Chats.antt =====
-- frontend/src/store/useChats.ts: the chat store and its actions on chats and selection.
-- An action takes the world to the world that it leaves. A world is the store, the module's
-- `controller`, the controllers that were aborted, and the database. Database calls succeed.
pub mod Run
pub mod Send
pub mod Settle
pub mod Refine
pub mod Stopping
pub mod Async
pub mod Frame
pub mod Removal
pub mod Elsewhere
pub mod Request
pub mod Mirror
pub mod Rests
mod Tests
use llm_router_ui.Prelude.{
  ℕ, ◌≡◌, Bool, true, false, not, Option, none, some, List, [], ◌∷◌, ◌++◌, map, filter, find,
  if◌then◌else◌,
}
use llm_router_ui.Text.{Text, codes, same}
use llm_router_ui.Types.{Message, Chat}
use llm_router_ui.Idb.{ObjectStore}
use llm_router_ui.Db.{Db, list_chats, list_messages, save_chat, delete_chat}
use llm_router_ui.Settings.{is_id}

pub record ChatState : Type 0 where
  pub chats : List Chat
  pub messages : List Message
  pub active_chat_id : Option Text
  pub streaming : Bool
  -- the assistant message that is being written
  pub streaming_id : Option Text
  pub error : Option Text

abbrev pub empty_state : ChatState
empty_state = record {
  chats = [];
  messages = [];
  active_chat_id = none;
  streaming = false;
  streaming_id = none;
  error = none;
}

module _ (idb : ObjectStore) where
  pub record World : Type 0 where
    pub store : ChatState
    pub open store use *
    pub controller : Option ℕ
    pub aborted : List ℕ
    pub next_controller : ℕ
    pub db : Db idb

  abbrev pub set_store : World → ChatState → World
  set_store w s = record w { store = s }

  unfoldable pub hydrate : World → World
  hydrate w = set_store w (record w.store { chats = list_chats idb w.db })

  -- `selectChat`; the empty id is falsy like a missing one
  unfoldable pub select_chat : World → Option Text → World
  select_chat w none =
      set_store w (record w.store { active_chat_id = none; messages = []; error = none })
  select_chat w (some []) =
      set_store w (record w.store { active_chat_id = none; messages = []; error = none })
  select_chat w (some (c ∷ s)) = set_store w (record w.store {
    active_chat_id = some (c ∷ s);
    messages = list_messages idb w.db (c ∷ s);
    error = none;
  })

  unfoldable pub new_chat : World → World
  new_chat w = set_store w (record w.store { active_chat_id = none; messages = []; error = none })

  unfoldable pub remove_chat : World → Text → World
  remove_chat w chat_id =
      let chats = filter (λ c. not (same c.id chat_id)) w.chats in
      let active = is_id w.active_chat_id chat_id in
      record w {
        store = record w.store {
          chats = chats;
          active_chat_id = if active then none else w.active_chat_id;
          messages = if active then [] else w.messages;
        };
        db = delete_chat idb w.db chat_id;
      }

  -- `chats.map((c) => (c.id === chatId ? updated : c))`
  unfoldable pub replace_chat : Text → Chat → Chat → Chat
  replace_chat chat_id updated c = if same c.id chat_id then updated else c

  unfoldable pub rename_chat : World → Text → Text → ℕ → World
  unfolding replace_chat
  rename_chat w chat_id title now = elim (find (λ c. same c.id chat_id) w.chats) [
    | none ↦ w
    | some chat ↦
        let updated = record chat { title = title; updated_at = now } in
        record w {
          store = record w.store { chats = map (replace_chat chat_id updated) w.chats };
          db = save_chat idb w.db updated;
        }
  ]

  unfoldable pub clear_error : World → World
  clear_error w = set_store w (record w.store { error = none })

  unfoldable pub touch_chat : World → Text → ℕ → World
  touch_chat w chat_id now = elim (find (λ c. same c.id chat_id) w.chats) [
    | none ↦ w
    | some chat ↦
        let updated = record chat { updated_at = now } in
        record w {
          store = record w.store {
            chats = updated ∷ filter (λ c. not (same c.id chat_id)) w.chats;
          };
          db = save_chat idb w.db updated;
        }
  ]
