-- ===== src/Db/Order.antt =====
-- The order in which `listChats` and `listMessages` of frontend/src/lib/db.ts answer.
use llm_router_ui.Prelude.{◌≡◌, ◌↔◌, ◌≤◌, some, true, List, In, In-reverse_iff, iff_trans, arith}
use llm_router_ui.Prelude.Sort.{In-sort_iff, IsSorted, sort-IsSorted, IsSorted-reverse}
use llm_router_ui.Text.{Text, same}
use llm_router_ui.Types.{Message, Chat}
use llm_router_ui.Idb.{ObjectStore}
use llm_router_ui.Idb.Laws.{In-values_iff}
use llm_router_ui.Db.{Db, created_before, updated_before, list_chats, list_messages, IsKeyed}
use llm_router_ui.Db.Deletion.{by_chat_iff}

abbrev pub Ascends : List Message → Type 0
Ascends = IsSorted (λ a b. a.created_at ≤ b.created_at)

module _ (idb : ObjectStore) where
  open idb use {get, entries, entries_iff}

  -- `listMessages` answers exactly the stored messages of the chat, oldest first.
  pub list_messages_exact :
      (db : Db idb) (chat_id : Text) (m : Message)
      → IsKeyed idb db
      → (In m (list_messages idb db chat_id)
          ↔ (get db.messages m.id ≡ some m) × (same m.chat_id chat_id ≡ true))
        × Ascends (list_messages idb db chat_id)
  unfolding list_messages
  list_messages_exact db chat_id m keyed = (
    iff_trans (In-sort_iff created_before m _) (by_chat_iff idb db chat_id m keyed),
    sort-IsSorted created_before _ (λ a b h. ground arith) (λ a b h. ground arith)
        (λ a b c h k. omega arith) _,
  )

  -- `listChats` answers exactly the stored chats, the last used first.
  pub list_chats_exact :
      (db : Db idb) (c : Chat)
      → IsKeyed idb db
      → (In c (list_chats idb db) ↔ (get db.chats c.id ≡ some c))
        × IsSorted (λ a b. b.updated_at ≤ a.updated_at) (list_chats idb db)
  unfolding list_chats
  list_chats_exact db c keyed = (
    iff_trans (In-reverse_iff c _) (
        iff_trans (In-sort_iff updated_before c _)
          (In-values_iff idb (λ x. x.id) db.chats c keyed.chats)),
    IsSorted-reverse (λ a b. a.updated_at ≤ b.updated_at) _
        (sort-IsSorted updated_before _ (λ a b h. ground arith) (λ a b h. ground arith)
          (λ a b c h k. omega arith) _),
  )
