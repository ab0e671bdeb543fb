-- ===== src/View/Settings/Providers.antt =====
-- The section on providers in frontend/src/components/SettingsModal.tsx, and the whole modal.
use Prim.Native.String.{String}
use llm_router_ui.Prelude.{
  Bool, true, false, ◌&&◌, not, Option, none, some, List, [], ◌∷◌, ◌++◌, map, length, ltb,
  if◌then◌else◌,
}
use llm_router_ui.Text.{Text, codes}
use llm_router_ui.Text.Decimal.{decimal}
use llm_router_ui.Types.{Provider, Settings}
use llm_router_ui.Settings.{Draft, is_id, active_provider}
use llm_router_ui.SettingsModal.{
  Preset, presets, TestResult, ModalState, test_disabled, save_disabled,
}
use llm_router_ui.View.Actions.{
  press_add, press_cancel, press_save, press_test, press_load, press_preset, press_use,
  press_remove, type_name, type_base_url, type_api_key, type_draft_model, type_model,
}
use llm_router_ui.View.{
  prop, value, flag, disabled, on, on_text, View, nothing, text, el, many, say, when, box,
}
use llm_router_ui.View.Icons.{icon_plus, icon_spinner, icon_trash}
use llm_router_ui.View.Settings.{section_title, label_for, modal_frame}

unfoldable pub provider_row : Option Text → Provider → View
provider_row active_id p =
    box "div"
      "flex items-center gap-3 rounded-lg border border-surface-200 p-3 dark:border-surface-700"
      (el "input"
          (prop "type" "radio"
            ∷ prop "name" "active-provider"
            ∷ flag "checked" (is_id active_id p.id)
            ∷ on "onChange" (press_use p.id)
            ∷ prop "className" "h-4 w-4 shrink-0 accent-surface-900 dark:accent-surface-100"
            ∷ value "aria-label" (codes "Use " ++ p.name)
            ∷ [])
          []
        ∷ box "div" "min-w-0 flex-1" (
            box "p" "truncate text-sm font-medium" (text p.name ∷ [])
            ∷ box "p" "truncate text-xs text-surface-700/60 dark:text-surface-200/40"
                (text p.base_url ∷ say " · " ∷ text p.model ∷ [])
            ∷ [])
        ∷ el "button"
            (on "onClick" (press_remove p.id)
              ∷ prop "className" "btn-ghost shrink-0 !px-2 hover:text-red-600"
              ∷ value "aria-label" (codes "Remove " ++ p.name)
              ∷ [])
            (icon_trash (codes "h-4 w-4") ∷ [])
        ∷ [])

abbrev pub no_providers : View
no_providers =
    box "p"
      "rounded-lg border border-dashed border-surface-200 px-3 py-6 text-center text-sm text-surface-700/50 dark:border-surface-700 dark:text-surface-200/40"
      (say "No providers yet." ∷ [])

abbrev pub is_none_left : List Provider → Bool
is_none_left [] = true
is_none_left (p ∷ ps) = false

unfoldable pub provider_list : Settings → Bool → View
unfolding provider_row
provider_list s adding = box "div" "space-y-2" (
    many (map (provider_row s.active_provider_id) s.providers)
    ∷ when (is_none_left s.providers && not adding) no_providers
    ∷ [])

abbrev pub preset_button : Preset → View
preset_button p =
    el "button"
      (on "onClick" (press_preset p)
        ∷ prop "className"
            "rounded-full border border-surface-200 px-2.5 py-1 text-xs transition-colors hover:border-accent hover:text-accent dark:border-surface-700"
        ∷ [])
      (text p.name ∷ [])

abbrev pub name_field : Draft → View
name_field d = el "div" [] (
    label_for "p-name" (say "Name" ∷ [])
    ∷ el "input"
        (prop "id" "p-name"
          ∷ prop "className" "input"
          ∷ prop "placeholder" "My provider"
          ∷ value "value" d.name
          ∷ on_text "onChange" type_name
          ∷ [])
        []
    ∷ [])

abbrev pub url_field : Draft → View
url_field d = el "div" [] (
    label_for "p-url" (say "Base URL" ∷ [])
    ∷ el "input"
        (prop "id" "p-url"
          ∷ prop "className" "input"
          ∷ prop "placeholder" "https://api.openai.com/v1"
          ∷ value "value" d.base_url
          ∷ on_text "onChange" type_base_url
          ∷ [])
        []
    ∷ box "p" "hint" (say "Include the version path, e.g. /v1" ∷ [])
    ∷ [])

abbrev pub key_field : Draft → View
key_field d = el "div" [] (
    label_for "p-key" (say "API key" ∷ [])
    ∷ el "input"
        (prop "id" "p-key"
          ∷ prop "type" "password"
          ∷ prop "className" "input"
          ∷ prop "placeholder" "sk-…"
          ∷ prop "autoComplete" "off"
          ∷ value "value" d.api_key
          ∷ on_text "onChange" type_api_key
          ∷ [])
        []
    ∷ [])

abbrev pub model_options : String → List Text → View
model_options id models =
    el "datalist" (prop "id" id ∷ []) (map (λ m. el "option" (value "value" m ∷ []) []) models)

unfoldable pub model_field : Draft → List Text → View
unfolding decimal
model_field d models = el "div" [] (
    label_for "p-model" (say "Model" ∷ [])
    ∷ el "input"
        (prop "id" "p-model"
          ∷ prop "className" "input"
          ∷ prop "placeholder" "gpt-4o-mini"
          ∷ prop "list" "model-options"
          ∷ value "value" d.model
          ∷ on_text "onChange" type_draft_model
          ∷ [])
        []
    ∷ model_options "model-options" models
    ∷ when (ltb 0 (length models)) (
        box "p" "hint"
          (text (decimal (length models)) ∷ say " models loaded — type to filter" ∷ []))
    ∷ [])

-- `gap` is the margin above
unfoldable pub result_note : String → Option TestResult → View
result_note gap none = nothing
result_note gap (some r) =
    el "p"
      (value "className" (
          codes gap
          ++ (if r.ok
              then codes "text-xs text-accent"
              else codes "text-xs text-red-600 dark:text-red-400"))
        ∷ [])
      (text r.msg ∷ [])

abbrev pub spinner : Bool → View
spinner testing = when testing (icon_spinner (codes "h-4 w-4"))

unfoldable pub draft_buttons : ModalState → View
unfolding test_disabled save_disabled
draft_buttons m = box "div" "flex flex-wrap gap-2" (
    el "button"
      (on "onClick" press_test
        ∷ disabled (test_disabled m)
        ∷ prop "className" "btn-ghost border border-surface-200 dark:border-surface-700"
        ∷ [])
      (spinner m.testing ∷ say "Test connection" ∷ [])
    ∷ el "button"
        (on "onClick" press_save ∷ disabled (save_disabled m) ∷ prop "className" "btn-primary" ∷ [])
        (say "Save provider" ∷ [])
    ∷ el "button" (on "onClick" press_cancel ∷ prop "className" "btn-ghost" ∷ [])
        (say "Cancel" ∷ [])
    ∷ [])

unfoldable pub draft_form : ModalState → View
unfolding model_field result_note draft_buttons
draft_form m =
    box "div" "mt-3 space-y-3 rounded-lg border border-surface-200 p-4 dark:border-surface-700" (
      box "div" "flex flex-wrap gap-1.5" (map preset_button presets)
      ∷ name_field m.draft
      ∷ url_field m.draft
      ∷ key_field m.draft
      ∷ model_field m.draft m.models
      ∷ result_note "" m.test_result
      ∷ draft_buttons m
      ∷ [])

abbrev pub add_button : View
add_button =
    el "button"
      (on "onClick" press_add
        ∷ prop "className" "btn-ghost mt-3 border border-surface-200 dark:border-surface-700"
        ∷ [])
      (icon_plus (codes "h-4 w-4") ∷ say "Add provider" ∷ [])

unfoldable pub active_field : Provider → ModalState → View
unfolding result_note
active_field p m = box "div" "mt-3" (
    label_for "active-model" (say "Model for " ∷ text p.name ∷ [])
    ∷ el "input"
        (prop "id" "active-model"
          ∷ prop "className" "input"
          ∷ value "value" p.model
          ∷ prop "list" "active-model-options"
          ∷ on_text "onChange" type_model
          ∷ [])
        []
    ∷ model_options "active-model-options" m.models
    ∷ el "button"
        (on "onClick" (press_load p)
          ∷ disabled m.testing
          ∷ prop "className" "btn-ghost mt-2 border border-surface-200 dark:border-surface-700"
          ∷ [])
        (spinner m.testing ∷ say "Load models" ∷ [])
    ∷ result_note "mt-2 " m.test_result
    ∷ [])

-- the model of the active provider, while no provider is added
unfoldable pub active_part : Settings → ModalState → View
unfolding active_field
active_part s m = elim (active_provider s) [
  | none ↦ nothing
  | some p ↦ when (not m.adding) (active_field p m)
]

unfoldable pub providers_section : Settings → ModalState → View
unfolding provider_list draft_form active_part
providers_section s m = el "section" [] (
    section_title "mb-1" "Providers"
    ∷ box "p" "mb-3 text-xs text-surface-700/60 dark:text-surface-200/40" (
        say
          "Any OpenAI-compatible endpoint. Your key is stored only in this browser and is sent directly to the endpoint you configure."
        ∷ [])
    ∷ provider_list s m.adding
    ∷ (if m.adding then draft_form m else add_button)
    ∷ active_part s m
    ∷ [])

-- `if (!open) return null`
unfoldable pub settings_view : Bool → Settings → ModalState → View
unfolding providers_section modal_frame
settings_view open_now s m = when open_now (modal_frame s (providers_section s m))
