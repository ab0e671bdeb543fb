-- ===== src/Db/Tests.antt =====
-- The database's theorems at a small database, and tests of its functions.
use llm_router_ui.Prelude.{
  ◌≡◌, ◌↔◌, ◌≤◌, refl, true, ◌&&◌, Option, none, some, [], ◌∷◌, leb, In, if◌then◌else◌, filter,
}
use llm_router_ui.Prelude.Sort.{IsSorted, sort}
use llm_router_ui.Text.{Text, codes, same, contains}
use llm_router_ui.Types.Patch.{SettingsPatch, whole, apply_settings}
use llm_router_ui.Idb.Laws.{unless, or_keep, delete_all, put_all}
use llm_router_ui.Idb.Assoc.{assoc_store, lookup, without, newest}
use llm_router_ui.Db.{
  Db, fresh, IsKeyed, list_chats, save_chat, delete_chat, by_chat, list_messages, save_message,
  delete_message, delete_messages_from, load_settings, save_settings, clear_all, settings_key,
}
use llm_router_ui.Db.Deletion.{delete_chat_exact, delete_messages_from_exact}
use llm_router_ui.Db.Order.{Ascends, list_messages_exact, list_chats_exact}
use llm_router_ui.Db.Keys.{Reach-IsKeyed}
use llm_router_ui.Db.Backup.{backup_of, export_data, import_data, imported, Parsed, fields}
use llm_router_ui.Db.Backup.Laws.{Redacts, import-export, export-Redacts}
use llm_router_ui.Samples.{trip, work, question, reply, sample_db, sample_db-Reach, plain_json}

run : Unit {0}
unfolding list_chats save_chat delete_chat by_chat list_messages save_message delete_message
    delete_messages_from load_settings save_settings clear_all delete_all put_all lookup without
    newest same contains sort filter whole apply_settings export_data import_data
run = tt

list_chats_test : list_chats assoc_store sample_db ≡ trip ∷ work ∷ []
unfolding run
list_chats_test = refl

list_messages_test : list_messages assoc_store sample_db (codes "c1") ≡ question ∷ reply ∷ []
unfolding run
list_messages_test = refl

delete_from_test :
    list_messages assoc_store
      (delete_messages_from assoc_store sample_db (codes "c1") 12)
      (codes "c1")
    ≡ question ∷ []
unfolding run
delete_from_test = refl

sample_db-IsKeyed : IsKeyed assoc_store sample_db
sample_db-IsKeyed = Reach-IsKeyed assoc_store sample_db-Reach

delete_chat_exact_example :
    (lookup (delete_chat assoc_store sample_db (codes "c1")).chats (codes "c1")
      ≡ (if same (codes "c1") (codes "c1") then none else lookup sample_db.chats (codes "c1")))
    × (lookup (delete_chat assoc_store sample_db (codes "c1")).messages (codes "c1")
        ≡ unless (λ m. same m.chat_id (codes "c1")) (lookup sample_db.messages (codes "c1")))
delete_chat_exact_example = delete_chat_exact assoc_store sample_db (codes "c1") (codes "c1")

delete_messages_from_exact_example :
    lookup (delete_messages_from assoc_store sample_db (codes "c1") 12).messages (codes "m2")
    ≡ unless
        (λ m. same m.chat_id (codes "c1") && leb 12 m.created_at)
        (lookup sample_db.messages (codes "m2"))
delete_messages_from_exact_example =
    delete_messages_from_exact assoc_store sample_db (codes "c1") 12 (codes "m2") sample_db-IsKeyed

list_messages_exact_example :
    (In reply (list_messages assoc_store sample_db (codes "c1"))
      ↔ (lookup sample_db.messages (codes "m2") ≡ some reply)
        × (same (codes "c1") (codes "c1") ≡ true))
    × Ascends (list_messages assoc_store sample_db (codes "c1"))
list_messages_exact_example =
    list_messages_exact assoc_store sample_db (codes "c1") reply sample_db-IsKeyed

list_chats_exact_example :
    (In trip (list_chats assoc_store sample_db) ↔ (lookup sample_db.chats (codes "c1") ≡ some trip))
    × IsSorted (λ a b. b.updated_at ≤ a.updated_at) (list_chats assoc_store sample_db)
list_chats_exact_example = list_chats_exact assoc_store sample_db trip sample_db-IsKeyed

abbrev document : Parsed
document = fields (some (trip ∷ work ∷ [])) (some (reply ∷ question ∷ []))

exported : export_data assoc_store plain_json sample_db ≡ some document
unfolding run
exported = refl

import-export_example :
    (result : Db assoc_store) × (import_data assoc_store plain_json (fresh assoc_store) document
      ≡ imported result)
    × ((k : Text) → lookup result.chats k ≡ or_keep (lookup sample_db.chats k) none)
    × ((k : Text) → lookup result.messages k ≡ or_keep (lookup sample_db.messages k) none)
    × (result.settings ≡ [])
unfolding lookup
import-export_example =
    import-export assoc_store plain_json sample_db (fresh assoc_store) document sample_db-IsKeyed
      exported

export-Redacts_example :
    (settings : Option SettingsPatch) × (document
      ≡ plain_json.stringify (backup_of assoc_store plain_json sample_db settings))
    × Redacts (lookup sample_db.settings settings_key) settings
export-Redacts_example = export-Redacts assoc_store plain_json sample_db document exported
