-- ===== src/Db/Keys.antt =====
-- Every database that the functions of frontend/src/lib/db.ts can produce keeps each record under
-- its own id, and settings read back as they were saved.
use llm_router_ui.Prelude.{
  ℕ, Option, some, List, [], ◌∷◌, ◌≡◌, arith, or_else, inl, inr, Option-cases,
}
use llm_router_ui.Text.{Text}
use llm_router_ui.Text.Laws.{same_iff, same_refl}
use llm_router_ui.Types.{Message, Chat, Settings, default_settings}
use llm_router_ui.Types.Patch.{whole, apply_settings-whole}
use llm_router_ui.Idb.{ObjectStore}
use llm_router_ui.Idb.Laws.{Keyed, delete_all, get-delete_all, put_all}
use llm_router_ui.Db.{
  Db, fresh, IsKeyed, save_chat, delete_chat, save_message, delete_message, delete_messages_from,
  save_settings, load_settings, clear_all, settings_key,
}
use llm_router_ui.Db.Backup.{put_fields, Json, import_data, stored, other, fields, broken}

module _ (idb : ObjectStore) where
  open idb use {Table, get, put, delete, clear, get-put, get-delete, get-clear, get-empty}

  module _ {V : Type 0} (key : V → Text) where
    Keyed-put : (t : Table V) (v : V) → Keyed idb key t → Keyed idb key (put t (key v) v)
    Keyed-put t v h k w e = ground (arith, get-put t (key v) k v, same_iff (key v) k, h k w)

    Keyed-put_all :
        (t : Table V) (vs : List V) → Keyed idb key t → Keyed idb key (put_all idb key t vs)
    unfolding put_all
    Keyed-put_all t [] h = h
    Keyed-put_all t (v ∷ vs) h = Keyed-put_all (put t (key v) v) vs (Keyed-put t v h)

    Keyed-delete : (t : Table V) (j : Text) → Keyed idb key t → Keyed idb key (delete t j)
    Keyed-delete t j h k w e = ground (arith, get-delete t j k, h k w)

    Keyed-delete_all :
        (t : Table V) (ks : List Text) → Keyed idb key t → Keyed idb key (delete_all idb t ks)
    Keyed-delete_all t ks h k w e = ground (arith, get-delete_all idb t ks k, h k w)

    Keyed-clear : (t : Table V) → Keyed idb key (clear t)
    Keyed-clear t k w e = ground (arith, get-clear t k)

  -- one call of a function of db.ts that writes
  pub data Step (db : Db idb) : Db idb → Type 1 where
    saves_chat : (c : Chat) → Step db (save_chat idb db c)
    deletes_chat : (chat_id : Text) → Step db (delete_chat idb db chat_id)
    saves_message : (m : Message) → Step db (save_message idb db m)
    deletes_message : (message_id : Text) → Step db (delete_message idb db message_id)
    deletes_from :
        (chat_id : Text) (created_at : ℕ) → Step db (delete_messages_from idb db chat_id created_at)
    saves_settings : (s : Settings) → Step db (save_settings idb db s)
    clears : Step db (clear_all idb db)
    imports :
        (json : Json) (document : json.Document) {next : Db idb}
        → stored (import_data idb json db document) ≡ some next
        → Step db next

  pub data Reach : Db idb → Type 1 where
    opened : Reach (fresh idb)
    follows : {db next : Db idb} → Reach db → Step db next → Reach next

  pub imported_fields :
      (json : Json) (db next : Db idb) (document : json.Document)
      → stored (import_data idb json db document) ≡ some next
      → (chats : Option (List Chat)) × (messages : Option (List Message)) × (next
          ≡ put_fields idb json db chats messages)
  unfolding import_data
  imported_fields json db next document e = elim (Option-cases (json.parse document)) [
    | inl unread ↦ absurd (ground arith)
    | inr (other, read) ↦ absurd (ground arith)
    | inr (fields chats messages, read) ↦ (chats, messages, ground arith)
    | inr (broken chats messages m, read) ↦ (some chats, some messages, ground arith)
  ]

  pub Step-IsKeyed : {db next : Db idb} → Step db next → IsKeyed idb db → IsKeyed idb next
  unfolding save_chat delete_chat save_message delete_message delete_messages_from save_settings
      clear_all put_fields
  Step-IsKeyed {db} (saves_chat c) h = record {
    chats = Keyed-put (λ c. c.id) db.chats c h.chats;
    messages = h.messages;
  }
  Step-IsKeyed {db} (deletes_chat chat_id) h = record {
    chats = Keyed-delete (λ c. c.id) db.chats chat_id h.chats;
    messages = Keyed-delete_all (λ m. m.id) db.messages _ h.messages;
  }
  Step-IsKeyed {db} (saves_message m) h = record {
    chats = h.chats;
    messages = Keyed-put (λ m. m.id) db.messages m h.messages;
  }
  Step-IsKeyed {db} (deletes_message message_id) h = record {
    chats = h.chats;
    messages = Keyed-delete (λ m. m.id) db.messages message_id h.messages;
  }
  Step-IsKeyed {db} (deletes_from chat_id created_at) h = record {
    chats = h.chats;
    messages = Keyed-delete_all (λ m. m.id) db.messages _ h.messages;
  }
  Step-IsKeyed (saves_settings s) h = record { chats = h.chats; messages = h.messages }
  Step-IsKeyed {db} clears h = record {
    chats = Keyed-clear (λ c. c.id) db.chats;
    messages = Keyed-clear (λ m. m.id) db.messages;
  }
  Step-IsKeyed {db} {next} (imports json document e) h =
      let (chats, messages, q) = imported_fields json db next document e in
      rw (q, put_fields)
        (record {
          chats = Keyed-put_all (λ c. c.id) db.chats (or_else chats []) h.chats;
          messages = Keyed-put_all (λ m. m.id) db.messages (or_else messages []) h.messages;
        })

  -- Whatever calls were made since the database was created, each chat and each message stands
  -- under its own id.
  pub Reach-IsKeyed : {db : Db idb} → Reach db → IsKeyed idb db
  Reach-IsKeyed opened = record {
    chats = λ k c e. ground (arith, get-empty {V = Chat} k);
    messages = λ k m e. ground (arith, get-empty {V = Message} k);
  }
  Reach-IsKeyed (follows r s) = Step-IsKeyed s (Reach-IsKeyed r)

  -- Settings that were saved are loaded unchanged, whatever was stored before, and after a wipe
  -- the defaults are loaded.
  pub load-save_settings :
      (db : Db idb) (s : Settings)
      → (load_settings idb (save_settings idb db s) ≡ s)
        × (load_settings idb (clear_all idb db) ≡ default_settings)
  unfolding load_settings save_settings clear_all
  load-save_settings db s =
      let saved = get-put db.settings settings_key settings_key (whole s) in
      let cleared = get-clear db.settings settings_key in
      (
        rw (saved, load_settings)
            (rw (same_refl settings_key) (apply_settings-whole default_settings s)),
        rw (cleared, load_settings),
      )
