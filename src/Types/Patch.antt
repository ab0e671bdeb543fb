-- ===== src/Types/Patch.antt =====
-- `Partial<Settings>` and `Partial<Provider>` of frontend/src/store/useSettings.ts and
-- frontend/src/lib/db.ts: a record spread over another, `{ ...base, ...patch }`.
use llm_router_ui.Prelude.{ℕ, ◌≡◌, refl, Bool, Option, none, some, List, or_else}
use llm_router_ui.Text.{Text}
use llm_router_ui.Types.{Provider, Settings, Theme, WebSearchEngine}

pub record ProviderPatch : Type 0 where
  pub id : Option Text
  pub name : Option Text
  pub base_url : Option Text
  pub api_key : Option Text
  pub model : Option Text

-- the empty patch, which an object with some of the fields extends
abbrev pub no_provider_patch : ProviderPatch
no_provider_patch = record { id = none; name = none; base_url = none; api_key = none; model = none }

unfoldable pub apply_provider : Provider → ProviderPatch → Provider
apply_provider p q = record {
  id = or_else q.id p.id;
  name = or_else q.name p.name;
  base_url = or_else q.base_url p.base_url;
  api_key = or_else q.api_key p.api_key;
  model = or_else q.model p.model;
}

pub record SettingsPatch : Type 0 where
  pub providers : Option (List Provider)
  pub active_provider_id : Option (Option Text)
  pub temperature : Option ℕ
  pub max_tokens : Option (Option ℕ)
  pub system_prompt : Option Text
  pub theme : Option Theme
  pub streaming : Option Bool
  pub send_on_enter : Option Bool
  pub web_search : Option Bool
  pub web_search_engine : Option WebSearchEngine

abbrev pub no_settings : SettingsPatch
no_settings = record {
  providers = none;
  active_provider_id = none;
  temperature = none;
  max_tokens = none;
  system_prompt = none;
  theme = none;
  streaming = none;
  send_on_enter = none;
  web_search = none;
  web_search_engine = none;
}

unfoldable pub apply_settings : Settings → SettingsPatch → Settings
apply_settings s q = record {
  providers = or_else q.providers s.providers;
  active_provider_id = or_else q.active_provider_id s.active_provider_id;
  temperature = or_else q.temperature s.temperature;
  max_tokens = or_else q.max_tokens s.max_tokens;
  system_prompt = or_else q.system_prompt s.system_prompt;
  theme = or_else q.theme s.theme;
  streaming = or_else q.streaming s.streaming;
  send_on_enter = or_else q.send_on_enter s.send_on_enter;
  web_search = or_else q.web_search s.web_search;
  web_search_engine = or_else q.web_search_engine s.web_search_engine;
}

-- a whole record, as a patch that sets every field
unfoldable pub whole : Settings → SettingsPatch
whole s = record {
  providers = some s.providers;
  active_provider_id = some s.active_provider_id;
  temperature = some s.temperature;
  max_tokens = some s.max_tokens;
  system_prompt = some s.system_prompt;
  theme = some s.theme;
  streaming = some s.streaming;
  send_on_enter = some s.send_on_enter;
  web_search = some s.web_search;
  web_search_engine = some s.web_search_engine;
}

abbrev pub no_change : SettingsPatch
no_change = record {
  providers = none;
  active_provider_id = none;
  temperature = none;
  max_tokens = none;
  system_prompt = none;
  theme = none;
  streaming = none;
  send_on_enter = none;
  web_search = none;
  web_search_engine = none;
}

pub apply_settings-whole : (s t : Settings) → apply_settings s (whole t) ≡ t
unfolding apply_settings whole
apply_settings-whole s t = refl
