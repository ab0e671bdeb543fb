-- ===== src/View/Offers.antt =====
-- Which actions a view offers: an element's handlers of clicks and keys can be reached unless the
-- element is disabled. The buttons of frontend/src/components/Composer.tsx that send and stop, and
-- the keys of its input, which Enter sends from.
use llm_router_ui.Prelude.{
  ◌≡◌, refl, ◌∙◌, Bool, true, false, ◌&&◌, ◌||◌, not, List, [], ◌∷◌, map, is_some, arith,
  Option-cases, inl, inr, if◌then◌else◌,
}
use llm_router_ui.Text.{Text, is_empty, trim}
use llm_router_ui.Types.{Provider, Settings}
use llm_router_ui.Settings.{active_provider}
use llm_router_ui.Models.{Locale}
use llm_router_ui.Composer.{KeyEvent, ComposerState, listed_models}
use llm_router_ui.View.Actions
use llm_router_ui.View.Actions.{Action}
use llm_router_ui.View.{
  Attribute, disabled, on, on_key, View, Views, nothing, text, element, fragment, nil, cons, views,
}
use llm_router_ui.View.Composer.{
  composer_view, message_input, picker_button, picker, picker_list, model_option, web_button,
  engine_select, send_button,
}

abbrev pub is_enabled : List Attribute → Bool
is_enabled [] = true
is_enabled (disabled b ∷ rest) = not b && is_enabled rest
is_enabled (_ ∷ rest) = is_enabled rest

-- the actions that pass a test, by a click or by one key
module _ (key : KeyEvent) (p : Action → Bool) where
  abbrev pub has_press : List Attribute → Bool
  has_press [] = false
  has_press (on event a ∷ rest) = p a || has_press rest
  has_press (on_key f ∷ rest) = p (f key) || has_press rest
  has_press (_ ∷ rest) = has_press rest

  unfoldable mutual
    pub offers : View → Bool
    offers nothing = false
    offers (text t) = false
    offers (element tag attributes kids) =
        (is_enabled attributes && has_press attributes) || any_offers kids
    offers (fragment kids) = any_offers kids

    pub any_offers : Views → Bool
    any_offers nil = false
    any_offers (cons v vs) = offers v || any_offers vs

abbrev pub is_send : Action → Bool
is_send Actions.press_send = true
is_send _ = false

abbrev pub is_stop : Action → Bool
is_stop Actions.press_stop = true
is_stop _ = false

-- the input has the focus and hears the key
abbrev pub is_input_key : Action → Bool
is_input_key (Actions.press_key e) = true
is_input_key _ = false

module _ {A : Type 0} (key : KeyEvent) (p : Action → Bool) (f : A → View)
    (silent : (a : A) → offers key p (f a) ≡ false) where
  any_offers-map : (xs : List A) → any_offers key p (views (map f xs)) ≡ false
  unfolding offers
  any_offers-map [] = refl
  any_offers-map (a ∷ xs) = rw (silent a) (any_offers-map xs)

-- a test that the other presses of the composer fail
record IsQuiet (p : Action → Bool) : Type 0 where
  model : (m : Text) → p (Actions.choose_model m) ≡ false
  picker : p Actions.press_picker ≡ false
  web : p Actions.press_web ≡ false
  search : (e : KeyEvent) → p (Actions.picker_press e) ≡ false

module _ (key : KeyEvent) (p : Action → Bool) (quiet : IsQuiet p) (s : Settings)
    (c : ComposerState) where
  message_input-offers :
      offers key p (message_input s c) ≡ (is_some (active_provider s) && p (Actions.press_key key))
  unfolding offers message_input
  message_input-offers = ground arith

  model_option_silent : (q : Provider) (m : Text) → offers key p (model_option q m) ≡ false
  unfolding offers model_option
  model_option_silent q m = rw (quiet.model m) (ground arith)

  picker_button_silent : (streaming : Bool) → offers key p (picker_button s streaming c) ≡ false
  unfolding offers picker_button
  picker_button_silent streaming = rw quiet.picker (ground arith)

  web_button_silent : (streaming : Bool) → offers key p (web_button s streaming) ≡ false
  unfolding offers web_button
  web_button_silent streaming = rw quiet.web (ground arith)

  engine_select_silent : (streaming : Bool) → offers key p (engine_select s streaming) ≡ false
  unfolding offers engine_select
  engine_select_silent streaming = ground arith

  picker_list_silent :
      (locale : Locale) (q : Provider) → offers key p (picker_list locale q c) ≡ false
  unfolding offers picker_list
  picker_list_silent locale q =
      rw (any_offers-map key p (model_option q) (model_option_silent q) (listed_models locale c))
        (ground arith)

  picker_silent : (locale : Locale) → offers key p (picker locale s c) ≡ false
  unfolding offers picker
  picker_silent locale = elim (Option-cases (active_provider s)) [
    | inl e ↦ rw (picker, e)
    | inr (q, e) ↦ rw (picker, e) (ground (arith, picker_list_silent locale q, quiet.search key))
  ]

  send_button-offers :
      offers key p (send_button s c)
      ≡ (not (is_empty (trim c.text)) && is_some (active_provider s) && p Actions.press_send)
  unfolding offers send_button
  send_button-offers = ground arith

  composer-offers :
      (locale : Locale) (streaming : Bool)
      → offers key p (composer_view locale s streaming c) ≡ (
          (is_some (active_provider s) && p (Actions.press_key key))
          || (if streaming
              then p Actions.press_stop
              else not (is_empty (trim c.text))
                && is_some (active_provider s)
                && p Actions.press_send))
  unfolding offers composer_view
  composer-offers locale streaming =
      rw
        (
          message_input-offers,
          picker_button_silent streaming,
          picker_silent locale,
          web_button_silent streaming,
          engine_select_silent streaming,
        )
        (ground (arith, send_button-offers))

send_IsQuiet : IsQuiet is_send
send_IsQuiet = record { model = λ m. refl; picker = refl; web = refl; search = λ e. refl }

stop_IsQuiet : IsQuiet is_stop
stop_IsQuiet = record { model = λ m. refl; picker = refl; web = refl; search = λ e. refl }

input_key_IsQuiet : IsQuiet is_input_key
input_key_IsQuiet = record { model = λ m. refl; picker = refl; web = refl; search = λ e. refl }

-- The composer has an enabled button that stops exactly while an answer streams, and an enabled
-- button that sends exactly while none does, a provider is active and the text is not blank: never
-- both. Any key, such as the Enter that sends, reaches the message input exactly while a provider is
-- active. No handler of a disabled element counts.
pub composer_view-offers :
    (key : KeyEvent) (locale : Locale) (s : Settings) (streaming : Bool) (c : ComposerState)
    → (offers key is_stop (composer_view locale s streaming c) ≡ streaming)
      × (offers key is_send (composer_view locale s streaming c)
          ≡ (not streaming && not (is_empty (trim c.text)) && is_some (active_provider s)))
      × (offers key is_input_key (composer_view locale s streaming c) ≡ is_some (active_provider s))
composer_view-offers key locale s streaming c = (
  composer-offers key is_stop stop_IsQuiet s c locale streaming ∙ ground arith,
  composer-offers key is_send send_IsQuiet s c locale streaming ∙ ground arith,
  composer-offers key is_input_key input_key_IsQuiet s c locale streaming ∙ ground arith,
)
