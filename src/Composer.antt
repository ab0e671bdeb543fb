-- ===== src/Composer.antt =====
-- frontend/src/components/Composer.tsx: the message input, the model picker and the web search.
-- The layout and the focus belong to the browser.
pub mod Submit
mod Tests
use llm_router_ui.Prelude.{
  ℕ, Bool, true, false, ◌&&◌, ◌||◌, not, Option, none, some, List, [], ◌∷◌, ◌++◌, map, leb,
  if◌then◌else◌,
}
use llm_router_ui.Text.{Text, codes, same, is_empty, trim, starts_with}
use llm_router_ui.Types.{Provider, ModelInfo, Settings, WebSearchEngine}
use llm_router_ui.Types.Patch.{SettingsPatch, ProviderPatch, no_settings, no_provider_patch}
use llm_router_ui.Idb.{ObjectStore}
use llm_router_ui.Settings.{active_provider, update, update_provider}
use llm_router_ui.Models.{Locale, filter_models}
use llm_router_ui.Api.{
  Platform, Response, Result, returned, threw, Thrown, api_error, type_error, abort_error,
  other_error, not_an_error,
}
use llm_router_ui.Api.Request.{Request, fetch_models}
use llm_router_ui.Chats.{World}
use llm_router_ui.Chats.Run.{Ticks}
use llm_router_ui.Chats.Send.{SendTicks, send, stop}
use llm_router_ui.Screen.{Screen, settings_of, on_world, on_page}

pub record ComposerState : Type 0 where
  pub text : Text
  pub picker_open : Bool
  pub query : Text
  pub models : List Text
  pub model_source : Text
  pub model_error : Text

abbrev pub empty_composer : ComposerState
empty_composer = record {
  text = [];
  picker_open = false;
  query = [];
  models = [];
  model_source = [];
  model_error = [];
}

-- `${provider.id}\0${provider.baseUrl}\0${provider.apiKey}`
unfoldable pub source_of : Provider → Text
source_of p = p.id ++ 0 ∷ p.base_url ++ 0 ∷ p.api_key

unfoldable pub web_supported : Settings → Bool
web_supported s = elim (active_provider s) [
  | none ↦ false
  | some p ↦ starts_with (codes "openrouter/") p.model
]

unfoldable pub model_error_text : Thrown → Text
model_error_text (api_error message status) = message
model_error_text (type_error message) = message
model_error_text (other_error message) = message
model_error_text abort_error = []
model_error_text not_an_error = codes "Could not load models"

module _ (platform : Platform) (fetch : Request → Result Response) where
  unfoldable pub models_loaded : ComposerState → Text → Result (List ModelInfo) → ComposerState
  unfolding model_error_text
  models_loaded c source (returned items) = record c {
    models = map (λ i. i.id) items;
    model_source = source;
  }
  models_loaded c source (threw abort_error) = c
  models_loaded c source (threw e) = record c { model_error = model_error_text e }

  -- the effect of the open picker, whose request ends before it is cancelled
  unfoldable pub load_models : Settings → ComposerState → ComposerState
  unfolding models_loaded source_of
  load_models s c = elim (active_provider s) [
    | none ↦ c
    | some p ↦
        if not c.picker_open || same c.model_source (source_of p)
        then c
        else models_loaded (record c { model_error = [] }) (source_of p)
            (fetch_models platform fetch p)
  ]

pub record KeyEvent : Type 0 where
  pub key : Text
  pub is_composing : Bool
  pub shift : Bool
  pub ctrl : Bool
  pub meta : Bool

unfoldable pub wants_send : Bool → KeyEvent → Bool
wants_send send_on_enter e = if send_on_enter then not e.shift else e.ctrl || e.meta

abbrev pub toggle_picker : ComposerState → ComposerState
toggle_picker c = record c { picker_open = not c.picker_open }

unfoldable pub picker_key : ComposerState → Text → ComposerState
picker_key c key = if same key (codes "Escape") then record c { picker_open = false } else c

-- a press of the pointer, inside of the picker or not, which is listened to while the picker is open
unfoldable pub pointer_down : Bool → ComposerState → ComposerState
pointer_down inside c =
    if c.picker_open then (if inside then c else record c { picker_open = false }) else c

abbrev pub max_height : ℕ
max_height = 200

-- the height of the input in pixels, given that of its content
unfoldable pub input_height : ℕ → ℕ
input_height scroll_height = if leb scroll_height max_height then scroll_height else max_height

-- the models that the open picker lists
unfoldable pub listed_models : Locale → ComposerState → List Text
listed_models locale c = filter_models locale c.models c.query

module _ (idb : ObjectStore) (prefers_dark : Bool) where
  abbrev pub Composing : Type 0
  Composing = Screen idb prefers_dark × ComposerState

  unfoldable pub picker_disabled : Screen idb prefers_dark → Bool
  picker_disabled s = elim (active_provider (settings_of idb prefers_dark s)) [
    | none ↦ true
    | some p ↦ s.world.streaming
  ]

  unfoldable pub web_disabled : Screen idb prefers_dark → Bool
  web_disabled s = not (web_supported (settings_of idb prefers_dark s)) || s.world.streaming

  -- the button `Send`, which is there while nothing streams
  unfoldable pub send_disabled : Composing → Bool
  send_disabled (s, c) = elim (active_provider (settings_of idb prefers_dark s)) [
    | none ↦ true
    | some p ↦ is_empty (trim c.text)
  ]

  unfoldable pub press_web : Screen idb prefers_dark → Screen idb prefers_dark
  press_web s = on_page idb prefers_dark s (λ page.
      update idb prefers_dark page
        (record no_settings { web_search = some (not page.settings.web_search) }))

  unfoldable pub choose_engine : Screen idb prefers_dark → WebSearchEngine → Screen idb prefers_dark
  choose_engine s engine = on_page idb prefers_dark s (λ page.
      update idb prefers_dark page (record no_settings { web_search_engine = some engine }))

  unfoldable pub choose_model : Composing → Text → Composing
  choose_model (s, c) model = elim (active_provider (settings_of idb prefers_dark s)) [
    | none ↦ (s, c)
    | some p ↦ (
      on_page idb prefers_dark s (λ page.
          update_provider idb prefers_dark page p.id
            (record no_provider_patch { model = some model })),
      record c { picker_open = false; query = [] },
    )
  ]

  unfoldable pub press_stop : Screen idb prefers_dark → Screen idb prefers_dark
  press_stop s = on_world idb prefers_dark s (stop idb)

  module _ (platform : Platform) (fetch : Request → Result Response) where
    unfoldable pub submit : Composing → SendTicks → Ticks → Composing
    submit (s, c) ticks run_ticks =
        let value = trim c.text in
        if is_empty value || s.world.streaming then (s, c) else (
          on_world idb prefers_dark s (λ w.
              send idb platform fetch (settings_of idb prefers_dark s) w value ticks run_ticks),
          record c { text = [] },
        )

    unfoldable pub on_key_down : Composing → KeyEvent → SendTicks → Ticks → Composing
    unfolding submit wants_send
    on_key_down (s, c) e ticks run_ticks =
        if not (same e.key (codes "Enter")) || e.is_composing
        then (s, c)
        else if wants_send s.preferences.settings.send_on_enter e
        then submit (s, c) ticks run_ticks
        else (s, c)
