-- ===== src/Db/Deletion.antt =====
-- What `deleteChat` and `deleteMessagesFrom` of frontend/src/lib/db.ts remove, record by record.
use llm_router_ui.Prelude.{
  ℕ, Bool, true, ◌&&◌, none, some, ◌≡◌, ◌↔◌, ◌∙◌, sym, subst, ap, map, filter, leb, In,
  In-of_filter, In-filter, In-map, In-of_map, Bool-ext, arith, if◌then◌else◌,
}
use llm_router_ui.Text.{Text, same, contains}
use llm_router_ui.Text.Laws.{contains-witness, contains-In}
use llm_router_ui.Types.{Message}
use llm_router_ui.Idb.{ObjectStore}
use llm_router_ui.Idb.Laws.{get-delete_all_exact, unless}
use llm_router_ui.Db.{Db, by_chat, delete_chat, delete_messages_from, IsKeyed}

module _ (idb : ObjectStore) where
  open idb use {Table, get, entries, get-delete, entries_iff}

  same_record :
      {V : Type 0} (t : Table V) (k j : Text) (v w : V)
      → get t k ≡ some v
      → get t j ≡ some w
      → j ≡ k
      → w ≡ v
  same_record t k j v w e f q = grind arith

  module _ {V : Type 0} (p : V → Bool) (t : Table V) where
    -- A cursor filtered by a test meets the keys of the records that satisfy it.
    contains-keys :
        (k : Text) (v : V)
        → get t k ≡ some v
        → contains k (map (λ e. e.0) (filter (λ e. p e.1) (entries t))) ≡ p v
    contains-keys k v e =
        Bool-ext _ (p v)
          (λ h.
            let (x, m, q) = contains-witness (λ (x : Text × V). x.0) k _ h in
            let (m', px) = In-of_filter x _ (entries t) m in
            ap p (sym (same_record t k x.0 v x.1 e ((entries_iff t x.0 x.1).0 m') q)) ∙ px)
          (λ h.
            contains-In (λ (x : Text × V). x.0) _ (k, v)
              (In-filter (k, v) _ (entries t) ((entries_iff t k v).1 e) h))

  -- Deleting a chat removes its record and every message of it, and no other record.
  pub delete_chat_exact :
      (db : Db idb) (chat_id k : Text)
      → (get (delete_chat idb db chat_id).chats k
          ≡ (if same chat_id k then none else get db.chats k))
        × (get (delete_chat idb db chat_id).messages k
            ≡ unless (λ m. same m.chat_id chat_id) (get db.messages k))
  unfolding delete_chat
  delete_chat_exact db chat_id k = (
    get-delete db.chats chat_id k,
    get-delete_all_exact idb (λ m. same m.chat_id chat_id) db.messages _
        (contains-keys (λ m. same m.chat_id chat_id) db.messages) k,
  )

  -- The index of a chat holds exactly the stored messages of that chat.
  pub by_chat_iff :
      (db : Db idb) (chat_id : Text) (m : Message)
      → IsKeyed idb db
      → In m (by_chat idb db chat_id)
        ↔ (get db.messages m.id ≡ some m) × (same m.chat_id chat_id ≡ true)
  unfolding by_chat
  by_chat_iff db chat_id m keyed = (
    λ h.
        let (y, k, r) = In-of_map (λ (y : Text × Message). y.1) _ m h in
        let (k', ours) = In-of_filter y _ (entries db.messages) k in
        let stored = (entries_iff db.messages y.0 y.1).0 k' in
        let under = keyed.messages y.0 y.1 stored in rw (← r, under) (stored, ours),
    λ h.
        In-map (λ (y : Text × Message). y.1) _ (m.id, m)
          (In-filter (m.id, m) _ (entries db.messages) ((entries_iff db.messages m.id m).1 h.0)
            h.1),
  )

  -- In a database whose messages stand under their ids, `deleteMessagesFrom` removes exactly the
  -- messages of the chat that were created at the given time or later.
  pub delete_messages_from_exact :
      (db : Db idb) (chat_id : Text) (created_at : ℕ) (k : Text)
      → IsKeyed idb db
      → get (delete_messages_from idb db chat_id created_at).messages k
        ≡ unless (λ m. same m.chat_id chat_id && leb created_at m.created_at) (get db.messages k)
  unfolding delete_messages_from
  delete_messages_from_exact db chat_id created_at k keyed =
      get-delete_all_exact idb _ db.messages _
        (λ j v e.
          Bool-ext _ _
            (λ h.
              let (x, m, q) = contains-witness (λ (m : Message). m.id) j _ h in
              let (m', late) = In-of_filter x _ _ m in
              let (stored, ours) = (by_chat_iff db chat_id x keyed).0 m' in
              let w = same_record db.messages j x.id v x e stored q in grind arith)
            (λ h.
              let i = keyed.messages j v e in
              rw (← i) (
                contains-In (λ (m : Message). m.id) _ v
                  (In-filter v _ _
                    ((by_chat_iff db chat_id v keyed).1
                      (subst (λ z. get db.messages z ≡ some v) (sym i) e, ground arith))
                    (ground arith)))))
        k
