-- ===== src/Db/Backup.antt =====
-- `exportData` and `importData` of frontend/src/lib/db.ts. `JSON.stringify` and `JSON.parse` are
-- a parameter, over an abstract type of documents: what is used of them is that a backup that was
-- written reads back with its chats and messages.
pub mod Laws
use llm_router_ui.Prelude.{ℕ, Option, none, some, List, [], ◌≡◌, map, or_else}
use llm_router_ui.Text.{Text, codes}
use llm_router_ui.Types.{Message, Chat, Provider}
use llm_router_ui.Types.Patch.{SettingsPatch}
use llm_router_ui.Idb.{ObjectStore}
use llm_router_ui.Idb.Laws.{put_all}
use llm_router_ui.Db.{Db, settings_key}

pub record Backup : Type 0 where
  pub version : ℕ
  pub chats : List Chat
  pub messages : List Message
  pub settings : Option SettingsPatch

-- What `importData` sees of a parsed document: not an object, its two fields, or fields at which its
-- loops throw, as they are no lists of records with ids: the records that are put before, and the
-- message of the error.
pub data Parsed : Type 0 where
  other : Parsed
  fields : Option (List Chat) → Option (List Message) → Parsed
  broken : List Chat → List Message → Text → Parsed

pub record Json : Type 1 where
  pub Document : Type 0
  pub stringify : Backup → Document
  -- `none` where the parser throws
  pub parse : Document → Option Parsed
  pub parse-stringify :
      (b : Backup) → parse (stringify b) ≡ some (fields (some b.chats) (some b.messages))

unfoldable pub without_key : Provider → Provider
without_key p = record p { api_key = [] }

-- `none` is the TypeError of mapping over a missing list of providers
unfoldable pub safe_settings : SettingsPatch → Option SettingsPatch
safe_settings s = elim s.providers [
  | none ↦ none
  | some ps ↦ some (record s { providers = some (map without_key ps) })
]

pub data Imported {ℓ} (A : Type ℓ) : Type ℓ where
  imported : A → Imported A
  -- what was put before the error stays
  stopped : A → Text → Imported A
  syntax_error : Imported A
  failed : Text → Imported A

-- what is stored afterwards, where anything is
abbrev pub stored : {A : Type 0} → Imported A → Option A
stored (imported a) = some a
stored (stopped a message) = some a
stored syntax_error = none
stored (failed message) = none

module _ (idb : ObjectStore) (json : Json) where
  open idb use {Table, get, entries}
  open json use {Document, stringify, parse}

  unfoldable pub backup_of : Db idb → Option SettingsPatch → Backup
  backup_of db settings = record {
    version = 1;
    chats = map (λ e. e.1) (entries db.chats);
    messages = map (λ e. e.1) (entries db.messages);
    settings = settings;
  }

  -- `none` where the function throws
  unfoldable pub export_data : Db idb → Option Document
  unfolding backup_of safe_settings
  export_data db = elim (get db.settings settings_key) [
    | none ↦ some (stringify (backup_of db none))
    | some s ↦ elim (safe_settings s) [
      | none ↦ none
      | some safe ↦ some (stringify (backup_of db (some safe)))
    ]
  ]

  unfoldable pub put_fields : Db idb → Option (List Chat) → Option (List Message) → Db idb
  put_fields db chats messages = record db {
    chats = put_all idb (λ c. c.id) db.chats (or_else chats []);
    messages = put_all idb (λ m. m.id) db.messages (or_else messages []);
  }

  unfoldable pub import_data : Db idb → Document → Imported (Db idb)
  unfolding put_fields
  import_data db document = elim (parse document) [
    | none ↦ syntax_error
    | some other ↦ failed (codes "Invalid backup file")
    | some (fields chats messages) ↦ imported (put_fields db chats messages)
    | some (broken chats messages message) ↦
        stopped (put_fields db (some chats) (some messages)) message
  ]
