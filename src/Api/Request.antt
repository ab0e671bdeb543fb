-- ===== src/Api/Request.antt =====
-- The requests of frontend/src/lib/api.ts (`completionBody`, the calls of `fetch`) and the two
-- functions that await one whole answer, `fetchModels` and `fetchCompletion`.
use llm_router_ui.Prelude.{
  ℕ, Bool, false, Option, none, some, List, [], ◌∷◌, ◌==◌, if◌then◌else◌, or_else,
}
use llm_router_ui.Text.{Text, codes}
use llm_router_ui.Types.{ChatCompletionMessage, ModelInfo, Provider, WebSearchEngine}
use llm_router_ui.Api.{Platform, Response, Result, returned, threw, api_error, is_ok, ◌>>=◌}
use llm_router_ui.Api.Errors.{parse_error}
use llm_router_ui.Api.Url.{Headers, headers, proxy_url}

-- the options of a completion that its body is made of
pub record Options : Type 0 where
  pub model : Text
  pub messages : List ChatCompletionMessage
  pub temperature : Option ℕ
  pub max_tokens : Option ℕ
  pub web_search : Option WebSearchEngine

pub record Tool : Type 0 where
  pub type : Text
  pub engine : WebSearchEngine
  pub max_uses : ℕ
  pub max_results : ℕ

pub record CompletionBody : Type 0 where
  pub model : Text
  pub messages : List ChatCompletionMessage
  pub stream : Bool
  pub temperature : Option ℕ
  pub max_tokens : Option ℕ
  pub tools : Option (List Tool)

unfoldable pub search_tool : WebSearchEngine → Tool
search_tool engine = record {
  type = codes "openrouter:web_search";
  engine = engine;
  max_uses = 1;
  max_results = 3;
}

-- zero is falsy, so a limit of zero is left out like a missing one
unfoldable pub positive : Option ℕ → Option ℕ
positive none = none
positive (some n) = if n == 0 then none else some n

unfoldable pub completion_body : Options → Bool → CompletionBody
unfolding positive search_tool
completion_body options stream = record {
  model = options.model;
  messages = options.messages;
  stream = stream;
  temperature = options.temperature;
  max_tokens = positive options.max_tokens;
  tools = elim options.web_search [ none ↦ none | some engine ↦ some (search_tool engine ∷ []) ];
}

pub data Method : Type 0 where
  get post : Method

pub record Request : Type 0 where
  pub url : Text
  pub method : Method
  pub headers : Headers
  pub body : Option CompletionBody

unfoldable pub models_request : Provider → Request
unfolding headers
models_request provider = record {
  url = proxy_url provider.base_url (codes "/models");
  method = get;
  headers = headers provider;
  body = none;
}

unfoldable pub completion_request : Provider → Options → Bool → Request
unfolding headers completion_body
completion_request provider options stream = record {
  url = proxy_url provider.base_url (codes "/chat/completions");
  method = post;
  headers = headers provider;
  body = some (completion_body options stream);
}

pub record Completion : Type 0 where
  pub content : Text
  pub model : Option Text

module _ (platform : Platform) (fetch : Request → Result Response) where
  open platform use {parse_models, parse_response}

  -- `if (!res.ok) throw new ApiError(await parseError(res), res.status)`
  unfoldable pub fetch_ok : Request → Result Response
  fetch_ok request = do
    res ← fetch request
    if is_ok res
        then returned res
        else threw (api_error (parse_error platform res) (some res.status))

  unfoldable pub fetch_models : Provider → Result (List ModelInfo)
  unfolding fetch_ok
  fetch_models provider = do
    res ← fetch_ok (models_request provider)
    text ← res.text
    items ← parse_models text
    returned (or_else items [])

  unfoldable pub fetch_completion : Provider → Options → Result Completion
  unfolding fetch_ok
  fetch_completion provider options = do
    res ← fetch_ok (completion_request provider options false)
    text ← res.text
    answer ← parse_response text
    returned (record { content = or_else answer.content []; model = answer.model })
