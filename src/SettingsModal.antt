-- ===== src/SettingsModal.antt =====
-- frontend/src/components/SettingsModal.tsx: the draft of a provider and the connection test.
-- The dialog that asks, the file that is chosen, and the parser of URLs belong to the browser.
pub mod Actions
pub mod Presets
pub mod Wipe
mod Tests
use llm_router_ui.Prelude.{
  ℕ, Bool, true, false, ◌&&◌, ◌||◌, not, Option, none, some, List, [], ◌∷◌, ◌++◌, map, length, ltb,
  or_else, if◌then◌else◌,
}
use llm_router_ui.Prelude.Sort.{sort}
use llm_router_ui.Text.{Text, codes, same, is_empty, trim}
use llm_router_ui.Text.Decimal.{decimal}
use llm_router_ui.Types.{Provider, ModelInfo, Theme}
use llm_router_ui.Types.Patch.{SettingsPatch, ProviderPatch, no_settings, no_provider_patch}
use llm_router_ui.Idb.{ObjectStore}
use llm_router_ui.Db.Backup.{
  Json, export_data, import_data, imported, stopped, syntax_error, failed,
}
use llm_router_ui.Settings.{
  Draft, with_id, active_provider, update, add_provider, update_provider, remove_provider,
  set_active_provider, wipe,
}
use llm_router_ui.Api.{
  Platform, Response, Result, returned, threw, Thrown, api_error, type_error, abort_error,
  other_error, not_an_error,
}
use llm_router_ui.Api.Request.{Request, fetch_models}
use llm_router_ui.Chats
use llm_router_ui.Chats.{World, select_chat}
use llm_router_ui.Screen.{Screen, on_world, on_page, set_settings_open}

pub record Preset : Type 0 where
  pub name : Text
  pub base_url : Text
  pub model : Text

abbrev pub presets : List Preset
presets =
    record {
      name = codes "OpenAI";
      base_url = codes "https://api.openai.com/v1";
      model = codes "gpt-4o-mini";
    }
    ∷ record {
      name = codes "OpenRouter";
      base_url = codes "https://openrouter.ai/api/v1";
      model = codes "openai/gpt-4o-mini";
    }
    ∷ record {
      name = codes "Groq";
      base_url = codes "https://api.groq.com/openai/v1";
      model = codes "llama-3.3-70b-versatile";
    }
    ∷ record {
      name = codes "Together";
      base_url = codes "https://api.together.xyz/v1";
      model = codes "meta-llama/Llama-3-70b-chat-hf";
    }
    ∷ record {
      name = codes "Ollama (local)";
      base_url = codes "http://localhost:11434/v1";
      model = codes "llama3";
    }
    ∷ record {
      name = codes "LM Studio (local)";
      base_url = codes "http://localhost:1234/v1";
      model = codes "local-model";
    }
    ∷ []

abbrev pub empty_draft : Draft
empty_draft = record { name = []; base_url = []; api_key = []; model = [] }

pub record TestResult : Type 0 where
  pub ok : Bool
  pub msg : Text

pub record ModalState : Type 0 where
  pub draft : Draft
  pub adding : Bool
  pub models : List Text
  pub testing : Bool
  pub test_result : Option TestResult

abbrev pub empty_modal : ModalState
empty_modal = record {
  draft = empty_draft;
  adding = false;
  models = [];
  testing = false;
  test_result = none;
}

-- the effect of a modal that is closed
abbrev pub reset : ModalState → ModalState
reset m = record m { adding = false; draft = empty_draft; test_result = none; models = [] }

abbrev pub begin_adding : ModalState → ModalState
begin_adding m = record m { adding = true }

-- the button `Cancel`, and the end of a save
abbrev pub end_adding : ModalState → ModalState
end_adding m = record m { adding = false; draft = empty_draft; test_result = none }

-- typing in the four inputs of the draft
abbrev pub set_name : ModalState → Text → ModalState
set_name m t = record m { draft = record m.draft { name = t } }

abbrev pub set_base_url : ModalState → Text → ModalState
set_base_url m t = record m { draft = record m.draft { base_url = t } }

abbrev pub set_api_key : ModalState → Text → ModalState
set_api_key m t = record m { draft = record m.draft { api_key = t } }

abbrev pub set_model : ModalState → Text → ModalState
set_model m t = record m { draft = record m.draft { model = t } }

-- `setDraft({ ...draft, ...preset })`
unfoldable pub apply_preset : ModalState → Preset → ModalState
apply_preset m p = record m {
  draft = record m.draft { name = p.name; base_url = p.base_url; model = p.model };
}

unfoldable pub test_disabled : ModalState → Bool
test_disabled m = is_empty (trim m.draft.base_url) || m.testing

unfoldable pub save_disabled : ModalState → Bool
save_disabled m = is_empty (trim m.draft.base_url) || is_empty (trim m.draft.model)

-- the order of `sort()`: by UTF-16 code units
unfoldable pub text_before : Text → Text → Bool
text_before [] t = true
text_before (c ∷ s) [] = false
text_before (c ∷ s) (d ∷ t) =
    let rest = text_before s t in if ltb c d then true else if ltb d c then false else rest

unfoldable pub connected : ℕ → Text
connected n =
    codes "Connected — "
    ++ decimal n
    ++ codes " model"
    ++ (if ltb 1 n || ltb n 1 then codes "s" else [])
    ++ codes " available"

unfoldable pub test_error : Thrown → Text
test_error (api_error message status) = message
test_error (type_error message) =
    codes "Network error — check the URL and that the endpoint allows CORS from this origin."
test_error (other_error message) = message
test_error abort_error = []
test_error not_an_error = codes "Connection failed"

unfoldable pub tested : ModalState → Result (List ModelInfo) → ModalState
unfolding text_before connected test_error
tested m (returned list) =
    let ids = sort text_before (map (λ i. i.id) list) in
    record m {
      models = ids;
      test_result = some (record { ok = true; msg = connected (length ids) });
      testing = false;
    }
tested m (threw e) = record m {
  test_result = some (record { ok = false; msg = test_error e });
  testing = false;
}

-- a draft is tested under the id `probe`, a provider under its own
unfoldable pub test_connection :
    (platform : Platform) (fetch : Request → Result Response) → ModalState → Provider → ModalState
unfolding tested
test_connection platform fetch m provider =
    tested (record m { testing = true; test_result = none }) (fetch_models platform fetch provider)

abbrev pub probe : Draft → Provider
probe d = with_id d (codes "probe")

module _ (hostname : Text → Option Text) where
  -- the name of a provider that was given none: the host of its URL, or the URL if it is none
  unfoldable pub named : Draft → Draft
  named d =
      let name = trim d.name in
      record d { name = if is_empty name then or_else (hostname d.base_url) d.base_url else name }
