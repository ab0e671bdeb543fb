-- ===== src/Screen.antt =====
-- What the components of frontend/src share: both stores over one database, and the two flags of
-- frontend/src/App.tsx. An action of a store is an action on the screen.
use llm_router_ui.Prelude.{Bool, true, none, some, find, if◌then◌else◌}
use llm_router_ui.Text.{Text, codes}
use llm_router_ui.Types.{Settings, Theme}
use llm_router_ui.Idb.{ObjectStore}
use llm_router_ui.Settings
use llm_router_ui.Settings.{SettingsState, Page, is_id, is_dark}
use llm_router_ui.Chats
use llm_router_ui.Chats.{World}

module _ (idb : ObjectStore) (prefers_dark : Bool) where
  pub record Screen : Type 0 where
    pub world : World idb
    pub open world use *
    pub preferences : SettingsState
    pub dark : Bool
    pub sidebar_open : Bool
    pub settings_open : Bool

  abbrev pub settings_of : Screen → Settings
  settings_of s = s.preferences.settings

  -- the part of the screen that the settings store acts on
  abbrev pub page_of : Screen → Page idb prefers_dark
  page_of s = record { store = s.preferences; dark = s.dark; db = s.world.db }

  abbrev pub on_page : Screen → (Page idb prefers_dark → Page idb prefers_dark) → Screen
  on_page s f =
      let page = f (page_of s) in
      record s {
        world = record s.world { db = page.db };
        preferences = page.store;
        dark = page.dark;
      }

  abbrev pub on_world : Screen → (World idb → World idb) → Screen
  on_world s f = record s { world = f s.world }

  abbrev pub set_sidebar_open : Screen → Bool → Screen
  set_sidebar_open s b = record s { sidebar_open = b }

  abbrev pub set_settings_open : Screen → Bool → Screen
  set_settings_open s b = record s { settings_open = b }

  -- the effect that runs once: both stores are read
  unfoldable pub boot : Screen → Screen
  boot s = on_world (on_page s (Settings.hydrate idb prefers_dark)) (Chats.hydrate idb)

  -- the prompt for configuration on a first visit
  unfoldable pub prompt_settings : Screen → Screen
  prompt_settings s = elim s.preferences.settings.active_provider_id [
    | none ↦ if s.preferences.loaded then set_settings_open s true else s
    | some id ↦ s
  ]

  -- the system's preference changes while the theme is `system`
  unfoldable pub follow_system : Screen → Bool → Screen
  follow_system s prefers = elim s.preferences.settings.theme [
    | Theme.system ↦ record s { dark = is_dark prefers Theme.system }
    | Theme.light ↦ s
    | Theme.dark ↦ s
  ]

  unfoldable pub title : Screen → Text
  title s = elim (find (λ c. is_id s.world.active_chat_id c.id) s.world.chats) [
    | none ↦ codes "New chat"
    | some chat ↦ chat.title
  ]
