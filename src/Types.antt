-- ===== src/Types.antt =====
-- frontend/src/types.ts: the records that the stores, the database and the API client exchange.
-- Temperatures are in hundredths, the step of the slider that sets them being five of these;
-- times are milliseconds. An optional field is an `Option`.
pub mod Patch
use llm_router_ui.Prelude.{ℕ, Bool, true, false, Option, none, some, List, [], ◌∷◌}
use llm_router_ui.Text.{Text, codes}

pub data Role : Type 0 where
  system user assistant : Role

pub record Message : Type 0 where
  pub id : Text
  pub chat_id : Text
  pub role : Role
  pub content : Text
  pub created_at : ℕ
  pub error : Option Text
  pub model : Option Text

pub record Chat : Type 0 where
  pub id : Text
  pub title : Text
  pub created_at : ℕ
  pub updated_at : ℕ
  pub model : Option Text
  pub system_prompt : Option Text

pub record Provider : Type 0 where
  pub id : Text
  pub name : Text
  pub base_url : Text
  pub api_key : Text
  pub model : Text

pub data Theme : Type 0 where
  light dark system : Theme

pub data WebSearchEngine : Type 0 where
  auto exa parallel perplexity : WebSearchEngine

pub record Settings : Type 0 where
  pub providers : List Provider
  pub active_provider_id : Option Text
  pub temperature : ℕ
  pub max_tokens : Option ℕ
  pub system_prompt : Text
  pub theme : Theme
  pub streaming : Bool
  pub send_on_enter : Bool
  pub web_search : Bool
  pub web_search_engine : WebSearchEngine

pub record ModelInfo : Type 0 where
  pub id : Text
  pub owned_by : Option Text

pub record ChatCompletionMessage : Type 0 where
  pub role : Role
  pub content : Text

-- `choices?.[0]?.delta?.content` is all that is read of the choices of a delta: `content` is
-- `none` where any link of that chain is missing.
pub record StreamDelta : Type 0 where
  pub model : Option Text
  pub content : Option Text

-- likewise `choices?.[0]?.message?.content`
pub record CompletionResponse : Type 0 where
  pub model : Option Text
  pub content : Option Text

abbrev pub gateway_provider : Provider
gateway_provider = record {
  id = codes "gateway";
  name = codes "LLM Gateway";
  base_url = codes "/v1";
  api_key = codes "not-needed";
  model = codes "auto";
}

abbrev pub default_settings : Settings
default_settings = record {
  providers = gateway_provider ∷ [];
  active_provider_id = some (codes "gateway");
  temperature = 100;
  max_tokens = none;
  system_prompt = [];
  theme = Theme.system;
  streaming = true;
  send_on_enter = true;
  web_search = false;
  web_search_engine = auto;
}
