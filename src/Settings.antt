-- ===== src/Settings.antt =====
-- frontend/src/store/useSettings.ts: the settings store. An action takes the page, which is the
-- store, the document's theme class and the database, to the page that it leaves. An action sets
-- the store before it saves, and saves are run in the order of the calls.
pub mod Active
pub mod Invariant
mod Tests
use llm_router_ui.Prelude.{
  ◌≡◌, Bool, true, false, ◌||◌, ◌&&◌, not, Option, none, some, List, [], ◌∷◌, ◌++◌, map, filter,
  find, head?, or_else, if◌then◌else◌,
}
use mathlib.Core.Option
use llm_router_ui.Text.{Text, same}
use llm_router_ui.Types.{Provider, Settings, Theme, default_settings}
use llm_router_ui.Types.Patch.{ProviderPatch, apply_provider, SettingsPatch, apply_settings}
use llm_router_ui.Idb.{ObjectStore}
use llm_router_ui.Db.{Db, load_settings, save_settings, clear_all}

pub record SettingsState : Type 0 where
  pub settings : Settings
  pub loaded : Bool

-- the store before it is hydrated
abbrev pub initial : SettingsState
initial = record { settings = default_settings; loaded = false }

-- `Omit<Provider, 'id'>`
pub record Draft : Type 0 where
  pub name : Text
  pub base_url : Text
  pub api_key : Text
  pub model : Text

unfoldable pub with_id : Draft → Text → Provider
with_id d id = record {
  id = id;
  name = d.name;
  base_url = d.base_url;
  api_key = d.api_key;
  model = d.model;
}

-- `applyTheme`: whether the class `dark` is set, given what the system prefers
unfoldable pub is_dark : Bool → Theme → Bool
is_dark prefers_dark Theme.dark = true
is_dark prefers_dark Theme.system = prefers_dark
is_dark prefers_dark Theme.light = false

-- `settings.activeProviderId === id`
abbrev pub is_id : Option Text → Text → Bool
is_id none id = false
is_id (some a) id = same a id

unfoldable pub active_provider : Settings → Option Provider
active_provider s = find (λ p. is_id s.active_provider_id p.id) s.providers

unfoldable pub with_provider : Settings → Draft → Text → Settings
unfolding with_id
with_provider s provider id = record s {
  providers = s.providers ++ with_id provider id ∷ [];
  active_provider_id = some (or_else s.active_provider_id id);
}

unfoldable pub patch_provider : Text → ProviderPatch → Provider → Provider
unfolding apply_provider
patch_provider id patch p = if same p.id id then apply_provider p patch else p

unfoldable pub with_patched : Settings → Text → ProviderPatch → Settings
unfolding patch_provider
with_patched s id patch = record s { providers = map (patch_provider id patch) s.providers }

unfoldable pub without_provider : Settings → Text → Settings
without_provider s id =
    let providers = filter (λ p. not (same p.id id)) s.providers in
    record s {
      providers = providers;
      active_provider_id =
          if is_id s.active_provider_id id
          then Option.map (λ p. p.id) (head? providers)
          else s.active_provider_id;
    }

module _ (idb : ObjectStore) (prefers_dark : Bool) where
  pub record Page : Type 0 where
    pub store : SettingsState
    pub open store use *
    pub dark : Bool
    pub db : Db idb

  -- `set({ settings })` and `await saveSettings(settings)`
  unfoldable pub set_and_save : Page → Settings → Page
  set_and_save page s = record page {
    store = record page.store { settings = s };
    db = save_settings idb page.db s;
  }

  unfoldable pub hydrate : Page → Page
  unfolding is_dark
  hydrate page =
      let s = load_settings idb page.db in
      record page {
        store = record { settings = s; loaded = true };
        dark = is_dark prefers_dark s.theme;
      }

  unfoldable pub dark_after : Option Theme → Bool → Bool
  unfolding is_dark
  dark_after none dark = dark
  dark_after (some theme) dark = is_dark prefers_dark theme

  unfoldable pub update : Page → SettingsPatch → Page
  unfolding set_and_save dark_after apply_settings
  update page patch = record (set_and_save page (apply_settings page.settings patch)) {
    dark = dark_after patch.theme page.dark;
  }

  -- the id is a fresh one of `uid`, and is returned
  unfoldable pub add_provider : Page → Draft → Text → Page × Text
  unfolding set_and_save with_provider
  add_provider page provider id = (set_and_save page (with_provider page.settings provider id), id)

  unfoldable pub update_provider : Page → Text → ProviderPatch → Page
  unfolding set_and_save with_patched
  update_provider page id patch = set_and_save page (with_patched page.settings id patch)

  unfoldable pub remove_provider : Page → Text → Page
  unfolding set_and_save without_provider
  remove_provider page id = set_and_save page (without_provider page.settings id)

  unfoldable pub set_active_provider : Page → Option Text → Page
  unfolding set_and_save
  set_active_provider page id = set_and_save page (record page.settings { active_provider_id = id })

  unfoldable pub wipe : Page → Page
  unfolding is_dark
  wipe page = record page {
    store = record page.store { settings = default_settings };
    dark = is_dark prefers_dark Theme.system;
    db = clear_all idb page.db;
  }
