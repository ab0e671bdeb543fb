-- ===== src/View/Tests.antt =====
-- The views at a concrete page.
use llm_router_ui.Prelude.{◌≡◌, true, false, ◌&&◌, not, is_some, refl, [], ◌∷◌}
use llm_router_ui.Text.{codes, is_empty, trim}
use llm_router_ui.Types.{Settings, default_settings, gateway_provider}
use llm_router_ui.Settings.{active_provider}
use llm_router_ui.Models.{Locale}
use llm_router_ui.Composer.{KeyEvent, ComposerState, empty_composer}
use llm_router_ui.SettingsModal.{empty_modal}
use llm_router_ui.View.Composer.{composer_view}
use llm_router_ui.View.Settings.Providers.{settings_view}
use llm_router_ui.View.Offers.{offers, is_stop, is_send, is_input_key, composer_view-offers}
use llm_router_ui.View.Markup.{markup, keyless, settings_view-keyless}

-- settings with a key
abbrev keyed : Settings
keyed = record default_settings {
  providers = record gateway_provider { api_key = codes "sk-1" } ∷ [];
}

-- an order in which all texts are equal
abbrev plain_locale : Locale
plain_locale = record {
  lower = λ t. t;
  before = λ a b. true;
  before_total = λ a b h. refl;
  before_trans = λ a b c h k. refl;
}

abbrev typed : ComposerState
typed = record empty_composer { text = codes "Hello" }

-- Enter
abbrev enter : KeyEvent
enter = record {
  key = codes "Enter";
  is_composing = false;
  shift = false;
  ctrl = false;
  meta = false;
}

composer_view-offers_example :
    (offers enter is_stop (composer_view plain_locale default_settings false typed) ≡ false)
    × (offers enter is_send (composer_view plain_locale default_settings false typed) ≡ (
        not false
        && not (is_empty (trim typed.text))
        && is_some (active_provider default_settings)))
    × (offers enter is_input_key (composer_view plain_locale default_settings false typed)
        ≡ is_some (active_provider default_settings))
composer_view-offers_example = composer_view-offers enter plain_locale default_settings false typed

settings_view-keyless_example :
    markup (settings_view true (keyless keyed) empty_modal)
    ≡ markup (settings_view true keyed empty_modal)
settings_view-keyless_example = settings_view-keyless true keyed empty_modal
