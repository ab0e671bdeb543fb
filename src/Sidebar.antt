-- ===== src/Sidebar.antt =====
-- frontend/src/components/Sidebar.tsx: the chats in groups by date, and the handlers of the list.
-- The label of a chat is what groupByDate says of it.
pub mod Groups
mod Tests
use llm_router_ui.Prelude.{
  ℕ, Bool, true, false, Option, none, some, List, [], ◌∷◌, ◌++◌, if◌then◌else◌,
}
use llm_router_ui.Text.{Text, codes, same, is_empty, trim}
use llm_router_ui.Types.{Chat}
use llm_router_ui.Idb.{ObjectStore}
use llm_router_ui.Utils.{group_by_date}
use llm_router_ui.Chats.{World, select_chat, new_chat, remove_chat, rename_chat}
use llm_router_ui.Screen.{Screen, on_world, set_sidebar_open, set_settings_open}

-- the entries of the map from labels to chats, in the order of insertion
abbrev pub Buckets : Type 0
Buckets = List (Text × List Chat)

unfoldable pub file_under : Text → Chat → Buckets → Buckets
file_under key chat [] = (key, chat ∷ []) ∷ []
file_under key chat (b ∷ bs) =
    let rest = file_under key chat bs in
    if same b.0 key then (b.0, b.1 ++ chat ∷ []) ∷ bs else b ∷ rest

module _ (label : Chat → Text) where
  unfoldable pub file_chats : Buckets → List Chat → Buckets
  unfolding file_under
  file_chats bs [] = bs
  file_chats bs (chat ∷ chats) = file_chats (file_under (label chat) chat bs) chats

-- the groups of the list, as of a day
unfoldable pub groups : (month_year : ℕ → Text) (start_of_today : ℕ) → List Chat → Buckets
unfolding file_chats group_by_date
groups month_year start_of_today =
    file_chats (λ chat. group_by_date month_year start_of_today chat.updated_at) []

-- the state of the component
pub record Editing : Type 0 where
  pub editing_id : Option Text
  pub draft : Text

abbrev pub stop_editing : Editing → Editing
stop_editing e = record e { editing_id = none }

-- the button `Rename`, and typing in its input
abbrev pub start_editing : Editing → Chat → Editing
start_editing e chat = record { editing_id = some chat.id; draft = chat.title }

abbrev pub set_draft : Editing → Text → Editing
set_draft e draft = record e { draft = draft }

module _ (idb : ObjectStore) (prefers_dark : Bool) where
  unfoldable pub commit_rename :
      Screen idb prefers_dark × Editing → Text → ℕ → Screen idb prefers_dark × Editing
  commit_rename (s, e) id now =
      let title = trim e.draft in
      let kept =
        if is_empty title
        then s
        else on_world idb prefers_dark s (λ w. rename_chat idb w id title now) in
      (kept, stop_editing e)

  -- a key pressed in the input
  unfoldable pub rename_key :
      Screen idb prefers_dark × Editing → Text → Text → ℕ → Screen idb prefers_dark × Editing
  unfolding commit_rename
  rename_key (s, e) id key now =
      if same key (codes "Enter")
      then commit_rename (s, e) id now
      else if same key (codes "Escape")
      then (s, stop_editing e)
      else (s, e)

  unfoldable pub handle_select : Screen idb prefers_dark → Text → Screen idb prefers_dark
  handle_select s id =
      set_sidebar_open idb prefers_dark
        (on_world idb prefers_dark s (λ w. select_chat idb w (some id))) false

  unfoldable pub press_new_chat : Screen idb prefers_dark → Screen idb prefers_dark
  press_new_chat s =
      set_sidebar_open idb prefers_dark (on_world idb prefers_dark s (new_chat idb)) false

  unfoldable pub press_delete : Screen idb prefers_dark → Text → Screen idb prefers_dark
  press_delete s id = on_world idb prefers_dark s (λ w. remove_chat idb w id)

  unfoldable pub press_settings : Screen idb prefers_dark → Screen idb prefers_dark
  press_settings s =
      set_sidebar_open idb prefers_dark (set_settings_open idb prefers_dark s true) false
