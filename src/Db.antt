-- ===== src/Db.antt =====
-- frontend/src/lib/db.ts: the database of the browser, one object store each for chats, messages
-- and settings. Each exported function is a function on the database; a transaction is one step.
-- The store `settings` holds what was saved under any version of the code, hence partial records.
pub mod Backup
pub mod Order
pub mod Deletion
pub mod Keys
mod Tests
use llm_router_ui.Prelude.{
  ℕ, Bool, true, false, ◌&&◌, Option, none, some, List, [], ◌∷◌, ◌≡◌, map, reverse, filter, leb,
}
use llm_router_ui.Prelude.Sort.{sort}
use llm_router_ui.Text.{Text, same, codes}
use llm_router_ui.Types.{Message, Chat, Settings, default_settings}
use llm_router_ui.Types.Patch.{SettingsPatch, apply_settings, whole}
use llm_router_ui.Idb.{ObjectStore}
use llm_router_ui.Idb.Laws.{delete_all}

abbrev pub settings_key : Text
settings_key = codes "app"

-- The comparisons by which the index `by-updated` and `listMessages` order records.
abbrev pub updated_before : Chat → Chat → Bool
updated_before a b = leb a.updated_at b.updated_at

abbrev pub created_before : Message → Message → Bool
created_before a b = leb a.created_at b.created_at

-- the records that the index `by-chat` holds for a chat
abbrev pub in_chat : Text → Text × Message → Bool
in_chat chat_id e = same e.1.chat_id chat_id

module _ (idb : ObjectStore) where
  open idb use {Table, empty, get, put, delete, clear, entries}

  pub record Db : Type 0 where
    pub chats : Table Chat
    pub messages : Table Message
    pub settings : Table SettingsPatch

  -- `getDB` at the first visit: the upgrade creates the stores
  abbrev pub fresh : Db
  fresh = record { chats = empty; messages = empty; settings = empty }

  unfoldable pub list_chats : Db → List Chat
  list_chats db = reverse (sort updated_before (map (λ e. e.1) (entries db.chats)))

  unfoldable pub save_chat : Db → Chat → Db
  save_chat db chat = record db { chats = put db.chats chat.id chat }

  unfoldable pub delete_chat : Db → Text → Db
  delete_chat db chat_id = record db {
    chats = delete db.chats chat_id;
    messages =
        delete_all idb db.messages
          (map (λ e. e.0) (filter (in_chat chat_id) (entries db.messages)));
  }

  -- `index('by-chat').getAll(chatId)`
  unfoldable pub by_chat : Db → Text → List Message
  by_chat db chat_id = map (λ e. e.1) (filter (in_chat chat_id) (entries db.messages))

  unfoldable pub list_messages : Db → Text → List Message
  list_messages db chat_id = sort created_before (by_chat db chat_id)

  unfoldable pub save_message : Db → Message → Db
  save_message db message = record db { messages = put db.messages message.id message }

  unfoldable pub delete_message : Db → Text → Db
  delete_message db message_id = record db { messages = delete db.messages message_id }

  unfoldable pub delete_messages_from : Db → Text → ℕ → Db
  delete_messages_from db chat_id created_at = record db {
    messages =
        delete_all idb db.messages
          (map (λ m. m.id) (filter (λ m. leb created_at m.created_at) (by_chat db chat_id)));
  }

  unfoldable pub load_settings : Db → Settings
  load_settings db = elim (get db.settings settings_key) [
    | some stored ↦ apply_settings default_settings stored
    | none ↦ default_settings
  ]

  unfoldable pub save_settings : Db → Settings → Db
  save_settings db settings = record db { settings = put db.settings settings_key (whole settings) }

  unfoldable pub clear_all : Db → Db
  clear_all db = record {
    chats = clear db.chats;
    messages = clear db.messages;
    settings = clear db.settings;
  }

  -- every record stands under its own key, as the stores' `keyPath` of `id` has it
  pub record IsKeyed (db : Db) : Type 0 where
    pub chats : (k : Text) (c : Chat) → get db.chats k ≡ some c → c.id ≡ k
    pub messages : (k : Text) (m : Message) → get db.messages k ≡ some m → m.id ≡ k
