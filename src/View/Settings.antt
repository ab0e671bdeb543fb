-- ===== src/View/Settings.antt =====
-- The view of frontend/src/components/SettingsModal.tsx: the frame, and the sections on generation,
-- appearance and data. The section on providers is in Settings/Providers.
pub mod Providers
use Prim.Native.String.{String}
use llm_router_ui.Prelude.{
  ℕ, zero, suc, Bool, true, false, Option, none, some, List, [], ◌∷◌, ◌++◌, map, if◌then◌else◌,
}
use Prim.Native.Nat.{◌/◌, ◌%◌}
use llm_router_ui.Text.{Text, codes}
use llm_router_ui.Text.Decimal.{decimal}
use llm_router_ui.Types.{Settings, Theme}
use llm_router_ui.View.Actions.{
  Action, close_settings, press_export, press_file, press_wipe, type_system_prompt,
  type_temperature, type_max_tokens, choose_file, check_streaming, check_send_on_enter, press_theme,
}
use llm_router_ui.View.{
  Attribute, prop, value, flag, on, on_text, on_check, View, nothing, text, el, many, say, when,
  box,
}
use llm_router_ui.View.Icons.{base, icon_close}

abbrev pub section_title : String → String → View
section_title gap title =
    el "h3"
      (value "className" (
          codes gap
          ++ codes
              " text-sm font-semibold uppercase tracking-wide text-surface-700/60 dark:text-surface-200/50")
        ∷ [])
      (say title ∷ [])

abbrev pub label_for : String → List View → View
label_for id children = el "label" (prop "className" "label" ∷ prop "htmlFor" id ∷ []) children

-- `toFixed(2)` of a number of hundredths
unfoldable pub to_fixed : ℕ → Text
unfolding decimal
to_fixed n = decimal (n / 100) ++ codes "." ++ decimal (n / 10 % 10) ++ decimal (n % 10)

-- a number of hundredths as JavaScript writes it: no zeros at the end, no point before them
unfoldable pub amount : ℕ → Text
unfolding decimal
amount n = decimal (n / 100) ++ fraction (n / 10 % 10) (n % 10)
  where
    fraction : ℕ → ℕ → Text
    fraction zero zero = []
    fraction (suc d) zero = codes "." ++ decimal (suc d)
    fraction d (suc e) = codes "." ++ decimal d ++ decimal (suc e)

abbrev pub system_prompt_field : Settings → View
system_prompt_field s = el "div" [] (
    label_for "sys" (say "System prompt" ∷ [])
    ∷ el "textarea"
        (prop "id" "sys"
          ∷ prop "rows" "3"
          ∷ prop "className" "input resize-y"
          ∷ prop "placeholder" "You are a helpful assistant."
          ∷ value "value" s.system_prompt
          ∷ on_text "onChange" type_system_prompt
          ∷ [])
        []
    ∷ [])

unfoldable pub temperature_field : Settings → View
unfolding to_fixed amount
temperature_field s = el "div" [] (
    label_for "temp" (say "Temperature: " ∷ text (to_fixed s.temperature) ∷ [])
    ∷ el "input"
        (prop "id" "temp"
          ∷ prop "type" "range"
          ∷ prop "min" "0"
          ∷ prop "max" "2"
          ∷ prop "step" "0.05"
          ∷ value "value" (amount s.temperature)
          ∷ on_text "onChange" type_temperature
          ∷ prop "className" "w-full accent-surface-900 dark:accent-surface-100"
          ∷ [])
        []
    ∷ [])

unfoldable pub max_tokens_field : Settings → View
unfolding decimal
max_tokens_field s = el "div" [] (
    label_for "maxtok" (say "Max tokens" ∷ [])
    ∷ el "input"
        (prop "id" "maxtok"
          ∷ prop "type" "number"
          ∷ prop "min" "1"
          ∷ prop "className" "input"
          ∷ prop "placeholder" "Provider default"
          ∷ value "value" (elim s.max_tokens [ none ↦ [] | some n ↦ decimal n ])
          ∷ on_text "onChange" type_max_tokens
          ∷ [])
        []
    ∷ [])

abbrev pub check_field : Bool → (Bool → Action) → String → View
check_field checked action label = box "label" "flex items-center gap-3 text-sm" (
    el "input"
      (prop "type" "checkbox"
        ∷ flag "checked" checked
        ∷ on_check action
        ∷ prop "className" "h-4 w-4 accent-surface-900 dark:accent-surface-100"
        ∷ [])
      []
    ∷ say label
    ∷ [])

unfoldable pub generation_section : Settings → View
unfolding temperature_field max_tokens_field
generation_section s = el "section" [] (
    section_title "mb-3" "Generation"
    ∷ box "div" "space-y-4" (
        system_prompt_field s
        ∷ temperature_field s
        ∷ max_tokens_field s
        ∷ check_field s.streaming check_streaming "Stream responses"
        ∷ check_field s.send_on_enter check_send_on_enter "Enter sends message"
        ∷ [])
    ∷ [])

unfoldable pub theme_text : Theme → Text
theme_text Theme.light = codes "light"
theme_text Theme.dark = codes "dark"
theme_text Theme.system = codes "system"

unfoldable pub same_theme : Theme → Theme → Bool
same_theme Theme.light Theme.light = true
same_theme Theme.dark Theme.dark = true
same_theme Theme.system Theme.system = true
same_theme _ _ = false

unfoldable pub theme_button : Settings → Theme → View
unfolding theme_text same_theme
theme_button s theme =
    el "button"
      (on "onClick" (press_theme theme)
        ∷ value "className" (
            if same_theme s.theme theme
            then codes "btn-primary flex-1 capitalize"
            else codes
                "btn-ghost flex-1 border border-surface-200 capitalize dark:border-surface-700")
        ∷ [])
      (text (theme_text theme) ∷ [])

unfoldable pub appearance_section : Settings → View
unfolding theme_button
appearance_section s = el "section" [] (
    section_title "mb-3" "Appearance"
    ∷ box "div" "flex gap-2" (map (theme_button s) (Theme.light ∷ Theme.dark ∷ Theme.system ∷ []))
    ∷ [])

abbrev pub plain_button : Action → String → View
plain_button action label =
    el "button"
      (on "onClick" action
        ∷ prop "className" "btn-ghost border border-surface-200 dark:border-surface-700"
        ∷ [])
      (say label ∷ [])

abbrev pub data_section : View
data_section = el "section" [] (
    section_title "mb-1" "Data"
    ∷ box "p" "mb-3 text-xs text-surface-700/60 dark:text-surface-200/40"
        (say "Everything lives in this browser's IndexedDB. Exports omit API keys." ∷ [])
    ∷ box "div" "flex flex-wrap gap-2" (
        plain_button press_export "Export backup"
        ∷ plain_button press_file "Import backup"
        ∷ el "input"
            (prop "type" "file"
              ∷ prop "accept" "application/json"
              ∷ prop "className" "hidden"
              ∷ on_text "onChange" choose_file
              ∷ [])
            []
        ∷ el "button" (on "onClick" press_wipe ∷ prop "className" "btn-danger" ∷ [])
            (say "Delete all data" ∷ [])
        ∷ [])
    ∷ [])

abbrev pub modal_header : View
modal_header =
    box "header"
      "flex shrink-0 items-center justify-between border-b border-surface-100 px-5 py-4 dark:border-surface-700"
      (box "h2" "text-lg font-semibold" (say "Settings" ∷ [])
        ∷ el "button"
            (on "onClick" close_settings
              ∷ prop "className" "btn-ghost !px-2"
              ∷ prop "aria-label" "Close settings"
              ∷ [])
            (icon_close base ∷ [])
        ∷ [])

-- the dialog, around the section on providers
unfoldable pub modal_frame : Settings → View → View
unfolding generation_section appearance_section
modal_frame s providers =
    box "div" "fixed inset-0 z-50 flex items-end justify-center sm:items-center" (
      el "div"
        (prop "className" "absolute inset-0 bg-black/50"
          ∷ on "onClick" close_settings
          ∷ prop "aria-hidden" "true"
          ∷ [])
        []
      ∷ el "div"
          (prop "role" "dialog"
            ∷ prop "aria-modal" "true"
            ∷ prop "aria-label" "Settings"
            ∷ prop "className"
                "relative flex max-h-[92vh] w-full max-w-2xl flex-col rounded-t-2xl bg-white shadow-xl dark:bg-surface-800 sm:max-h-[85vh] sm:rounded-2xl"
            ∷ [])
          (modal_header
            ∷ box "div" "scrollbar-thin flex-1 space-y-8 overflow-y-auto px-5 py-5"
                (providers ∷ generation_section s ∷ appearance_section s ∷ data_section ∷ [])
            ∷ [])
      ∷ [])
