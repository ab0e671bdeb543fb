-- ===== src/View/Composer.antt =====
-- The view of frontend/src/components/Composer.tsx.
use Prim.Native.String.{String}
use llm_router_ui.Prelude.{
  Bool, true, false, ◌&&◌, ◌||◌, not, none, some, List, [], ◌∷◌, ◌++◌, map, is_some, if◌then◌else◌,
}
use llm_router_ui.Text.{Text, codes, same, is_empty, trim}
use llm_router_ui.Types.{Provider, Settings, WebSearchEngine}
use llm_router_ui.Settings.{active_provider}
use llm_router_ui.Models.{Locale}
use llm_router_ui.Composer.{ComposerState, web_supported, listed_models}
use llm_router_ui.View.Actions.{
  press_send, press_stop, press_picker, press_web, type_text, type_query, choose_model, press_key,
  picker_press, choose_engine,
}
use llm_router_ui.View.{
  prop, value, flag, disabled, on, on_text, on_key, View, nothing, text, el, many, say, when, box,
}
use llm_router_ui.View.Icons.{icon_send, icon_stop}

abbrev pub has_provider : Settings → Bool
has_provider s = is_some (active_provider s)

unfoldable pub message_input : Settings → ComposerState → View
message_input s c =
    el "textarea"
      (prop "rows" "1"
        ∷ value "value" c.text
        ∷ on_text "onChange" type_text
        ∷ on_key press_key
        ∷ value "placeholder" (
            if has_provider s
            then codes "Send a message…"
            else codes "Add a provider in Settings to start")
        ∷ disabled (not (has_provider s))
        ∷ prop "aria-label" "Message input"
        ∷ prop "className"
            "scrollbar-thin max-h-[200px] w-full resize-none bg-transparent px-1 py-1.5 text-[16px] leading-6 outline-none placeholder:text-surface-400 disabled:cursor-not-allowed dark:placeholder:text-surface-600"
        ∷ [])
      []

unfoldable pub picker_button : Settings → Bool → ComposerState → View
picker_button s streaming c =
    el "button"
      (prop "type" "button"
        ∷ disabled (not (has_provider s) || streaming)
        ∷ on "onClick" press_picker
        ∷ prop "aria-haspopup" "listbox"
        ∷ flag "aria-expanded" c.picker_open
        ∷ prop "className"
            "flex max-w-[260px] items-center gap-1.5 rounded-full px-2.5 py-1.5 text-xs font-medium text-surface-600 transition-colors hover:bg-surface-100 disabled:opacity-40 dark:text-surface-300 dark:hover:bg-surface-800"
        ∷ [])
      (box "span" "truncate"
          (elim (active_provider s) [ none ↦ say "Choose model" | some p ↦ text p.model ] ∷ [])
        ∷ el "span" (prop "aria-hidden" "true" ∷ []) (say "⌄" ∷ [])
        ∷ [])

unfoldable pub model_option : Provider → Text → View
model_option p model =
    el "button"
      (prop "type" "button"
        ∷ prop "role" "option"
        ∷ flag "aria-selected" (same p.model model)
        ∷ on "onClick" (choose_model model)
        ∷ prop "className"
            "flex w-full items-center justify-between gap-3 rounded-lg px-3 py-2 text-left text-sm hover:bg-surface-100 dark:hover:bg-surface-700"
        ∷ [])
      (box "span" "truncate" (text model ∷ [])
        ∷ when (same p.model model) (box "span" "text-accent" (say "✓" ∷ []))
        ∷ [])

abbrev pub query_input : ComposerState → View
query_input c = box "div" "border-b border-surface-100 p-2 dark:border-surface-700" (
    el "input"
      (flag "autoFocus" true
        ∷ value "value" c.query
        ∷ on_text "onChange" type_query
        ∷ on_key picker_press
        ∷ prop "placeholder" "Search models…"
        ∷ prop "aria-label" "Search models"
        ∷ prop "className" "input"
        ∷ [])
      []
    ∷ [])

abbrev pub no_models : List Text → Bool
no_models [] = true
no_models (m ∷ ms) = false

module _ (locale : Locale) where
  unfoldable pub picker_list : Provider → ComposerState → View
  unfolding model_option listed_models
  picker_list p c =
      el "div"
        (prop "role" "listbox"
          ∷ prop "aria-label" "Models"
          ∷ prop "className" "scrollbar-thin max-h-72 overflow-y-auto p-1.5"
          ∷ [])
        (many (map (model_option p) (listed_models locale c))
          ∷ when (no_models c.models && is_empty c.model_error) (
              box "p" "px-3 py-5 text-center text-sm text-surface-400" (say "Loading models…" ∷ []))
          ∷ when (not (is_empty c.model_error)) (
              el "p" (prop "role" "alert" ∷ prop "className" "px-3 py-3 text-sm text-red-500" ∷ [])
                (text c.model_error ∷ []))
          ∷ [])

  unfoldable pub picker : Settings → ComposerState → View
  unfolding picker_list
  picker s c = elim (active_provider s) [
    | none ↦ nothing
    | some p ↦ when c.picker_open (
        box "div"
          "absolute bottom-full left-0 z-20 mb-2 w-[min(360px,calc(100vw-40px))] overflow-hidden rounded-2xl border border-surface-200 bg-white shadow-xl dark:border-surface-700 dark:bg-surface-800"
          (query_input c ∷ picker_list p c ∷ []))
  ]

unfoldable pub web_button : Settings → Bool → View
unfolding web_supported
web_button s streaming =
    let supported = web_supported s in
    el "button"
      (prop "type" "button"
        ∷ disabled (not supported || streaming)
        ∷ on "onClick" press_web
        ∷ flag "aria-pressed" (s.web_search && supported)
        ∷ value "title" (
            if supported
            then codes "Toggle web search"
            else codes "Choose an openrouter/ model to use web search")
        ∷ value "className" (
            codes "rounded-full px-2.5 py-1.5 text-xs transition-colors disabled:opacity-30 "
            ++ (if s.web_search && supported
                then codes "bg-accent text-white"
                else codes
                    "text-surface-600 hover:bg-surface-100 dark:text-surface-300 dark:hover:bg-surface-800"))
        ∷ [])
      (text (0xd83c ∷ 0xdf10 ∷ codes " Web") ∷ [])

unfoldable pub engine_text : WebSearchEngine → Text
engine_text WebSearchEngine.auto = codes "auto"
engine_text WebSearchEngine.exa = codes "exa"
engine_text WebSearchEngine.parallel = codes "parallel"
engine_text WebSearchEngine.perplexity = codes "perplexity"

-- the cast of an option's value
unfoldable pub engine_of : Text → WebSearchEngine
engine_of t =
    if same t (codes "exa")
    then WebSearchEngine.exa
    else if same t (codes "parallel")
    then WebSearchEngine.parallel
    else if same t (codes "perplexity")
    then WebSearchEngine.perplexity
    else WebSearchEngine.auto

abbrev engine_option : String → String → View
engine_option v label = el "option" (prop "value" v ∷ []) (say label ∷ [])

unfoldable pub engine_select : Settings → Bool → View
unfolding web_supported engine_text engine_of
engine_select s streaming = when (s.web_search && web_supported s) (
    el "select"
      (prop "aria-label" "Web search engine"
        ∷ value "value" (engine_text s.web_search_engine)
        ∷ disabled streaming
        ∷ on_text "onChange" (λ t. choose_engine (engine_of t))
        ∷ prop "className"
            "rounded-full border border-surface-200 bg-transparent px-2 py-1.5 text-xs outline-none dark:border-surface-700"
        ∷ [])
      (engine_option "auto" "Auto"
        ∷ engine_option "exa" "Exa"
        ∷ engine_option "parallel" "Parallel"
        ∷ engine_option "perplexity" "Perplexity"
        ∷ []))

unfoldable pub send_button : Settings → ComposerState → View
send_button s c =
    el "button"
      (on "onClick" press_send
        ∷ disabled (is_empty (trim c.text) || not (has_provider s))
        ∷ prop "className"
            "shrink-0 rounded-full bg-surface-900 p-2 text-white transition-opacity hover:opacity-80 disabled:opacity-30 dark:bg-surface-100 dark:text-surface-900"
        ∷ prop "title" "Send"
        ∷ prop "aria-label" "Send message"
        ∷ [])
      (icon_send (codes "h-5 w-5") ∷ [])

abbrev pub stop_button : View
stop_button =
    el "button"
      (on "onClick" press_stop
        ∷ prop "className"
            "shrink-0 rounded-full bg-surface-900 p-2 text-white transition-opacity hover:opacity-80 dark:bg-surface-100 dark:text-surface-900"
        ∷ prop "title" "Stop generating"
        ∷ prop "aria-label" "Stop generating"
        ∷ [])
      (icon_stop (codes "h-5 w-5") ∷ [])

unfoldable pub composer_view : Locale → Settings → Bool → ComposerState → View
unfolding message_input picker_button picker web_button engine_select send_button
composer_view locale s streaming c =
    box "div"
      "safe-bottom bg-gradient-to-t from-surface-0 via-surface-0 to-transparent px-3 pb-3 pt-2 dark:from-surface-950 dark:via-surface-950 sm:px-4 sm:pb-4"
      (box "div" "mx-auto max-w-3xl" (
          box "div"
            "rounded-[26px] border border-surface-200 bg-surface-0 p-2 pl-4 shadow-sm transition-colors focus-within:border-surface-400 dark:border-surface-700 dark:bg-surface-900 dark:focus-within:border-surface-500"
            (message_input s c
              ∷ box "div" "mt-1 flex items-end justify-between gap-2" (
                  box "div" "flex min-w-0 items-center gap-1" (
                    box "div" "relative min-w-0"
                      (picker_button s streaming c ∷ picker locale s c ∷ [])
                    ∷ web_button s streaming
                    ∷ engine_select s streaming
                    ∷ [])
                  ∷ (if streaming then stop_button else send_button s c)
                  ∷ [])
              ∷ [])
          ∷ box "p"
              "mt-2 hidden text-center text-xs text-surface-700/50 dark:text-surface-200/40 sm:block"
              ((if s.send_on_enter
                  then say "Enter to send · Shift+Enter for newline"
                  else say "Ctrl+Enter to send")
                ∷ [])
          ∷ [])
        ∷ [])
