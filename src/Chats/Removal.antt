-- ===== src/Chats/Removal.antt =====
-- `removeChat` of frontend/src/store/useChats.ts while a completion of the chat is running.
use llm_router_ui.Prelude.{
  ◌≡◌, refl, ap, ◌∙◌, ℕ, not, none, some, List, [], ◌∷◌, find, filter, arith,
}
use llm_router_ui.Text.{Text, same}
use llm_router_ui.Text.Laws.{same_refl}
use llm_router_ui.Types.{Chat}
use llm_router_ui.Idb.{ObjectStore}
use llm_router_ui.Db.{save_message}
use llm_router_ui.Db.Deletion.{delete_chat_exact}
use llm_router_ui.Chats.{World, remove_chat, touch_chat}
use llm_router_ui.Chats.Run.{Run, answer, complete}

find-filter-not :
    (id : Text) (cs : List Chat)
    → find (λ c. same c.id id) (filter (λ c. not (same c.id id)) cs) ≡ none
unfolding find filter
find-filter-not id [] = refl
find-filter-not id (c ∷ cs) = ground (arith, find-filter-not id cs)

module _ (idb : ObjectStore) where
  open idb use {get, get-put}

  touch_chat_missing :
      (w : World idb) (id : Text) (now : ℕ)
      → find (λ c. same c.id id) w.chats ≡ none
      → touch_chat idb w id now ≡ w
  unfolding touch_chat
  touch_chat_missing w id now e = rw (touch_chat, e)

  -- When a chat is removed while its answer is still coming, the end of the completion stores the
  -- answer all the same: the chat is gone from the database, and the message is left under it.
  pub complete-remove_chat :
      (w : World idb) (run : Run) (now : ℕ)
      → (let after = complete idb (remove_chat idb w run.chat_id) run now in
          (get after.db.chats run.chat_id ≡ none)
          × (get after.db.messages run.assistant.id ≡ some (answer run)))
  unfolding complete save_message remove_chat answer
  complete-remove_chat w run now =
      let removed = remove_chat idb w run.chat_id in
      let saved : World idb = record removed { db = save_message idb removed.db (answer run) } in
      let same_world =
        touch_chat_missing saved run.chat_id now (find-filter-not run.chat_id w.chats) in
      (
        ap (λ (v : World idb). get v.db.chats run.chat_id) same_world
            ∙ ((delete_chat_exact idb w.db run.chat_id run.chat_id).0 ∙ rw (same_refl run.chat_id)),
        ap (λ (v : World idb). get v.db.messages run.assistant.id) same_world
            ∙ (get-put removed.db.messages run.assistant.id run.assistant.id (answer run)
                ∙ rw (same_refl run.assistant.id)),
      )
