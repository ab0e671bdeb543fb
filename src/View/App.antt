-- ===== src/View/App.antt =====
-- The view of frontend/src/App.tsx, and with it of the whole page.
use llm_router_ui.Prelude.{ℕ, Bool, Option, none, some, [], ◌∷◌}
use llm_router_ui.Text.{Text}
use llm_router_ui.Idb.{ObjectStore}
use llm_router_ui.Db.Backup.{Json}
use llm_router_ui.Api.{Platform}
use llm_router_ui.Api.Errors.{truthy}
use llm_router_ui.Models.{Locale}
use llm_router_ui.Screen.{title}
use llm_router_ui.Ui.{Ui}
use llm_router_ui.View.Actions.{open_sidebar, open_settings, dismiss_error}
use llm_router_ui.View.{prop, on, View, nothing, text, el, say, box}
use llm_router_ui.View.Icons.{base, icon_menu, icon_settings}
use llm_router_ui.View.Bubble.{Markdown}
use llm_router_ui.View.Chat.{chat_view}
use llm_router_ui.View.Sidebar.{sidebar_view}
use llm_router_ui.View.Composer.{composer_view}
use llm_router_ui.View.Settings.Providers.{settings_view}

abbrev pub app_header : Text → View
app_header name =
    box "header"
      "safe-top flex shrink-0 items-center gap-2 border-b border-surface-200 px-3 py-2.5 dark:border-surface-800 md:hidden"
      (el "button"
          (on "onClick" open_sidebar
            ∷ prop "className" "btn-ghost !px-2"
            ∷ prop "aria-label" "Open sidebar"
            ∷ [])
          (icon_menu base ∷ [])
        ∷ box "h1" "min-w-0 flex-1 truncate text-center text-sm font-medium" (text name ∷ [])
        ∷ el "button"
            (on "onClick" open_settings
              ∷ prop "className" "btn-ghost !px-2"
              ∷ prop "aria-label" "Open settings"
              ∷ [])
            (icon_settings base ∷ [])
        ∷ [])

unfoldable pub error_bar : Option Text → View
unfolding truthy
error_bar error = elim (truthy error) [
  | none ↦ nothing
  | some message ↦
      el "div"
        (prop "role" "alert"
          ∷ prop "className"
              "flex items-start gap-3 border-b border-red-200 bg-red-50 px-4 py-2.5 text-sm text-red-700 dark:border-red-900/50 dark:bg-red-950/30 dark:text-red-300"
          ∷ [])
        (box "span" "min-w-0 flex-1" (text message ∷ [])
          ∷ el "button"
              (on "onClick" dismiss_error ∷ prop "className" "shrink-0 font-medium underline" ∷ [])
              (say "Dismiss" ∷ [])
          ∷ [])
]

module _ (idb : ObjectStore) (prefers_dark : Bool) (platform : Platform) (json : Json)
    (markdown : Markdown) (locale : Locale) where
  unfoldable pub app_view :
      (month_year : ℕ → Text) (start_of_today : ℕ) (copied : Text → Bool)
      → Ui idb prefers_dark platform json
      → View
  unfolding error_bar title chat_view sidebar_view composer_view settings_view
  app_view month_year start_of_today copied ui =
      let s = ui.screen.preferences.settings in
      let store = ui.screen.world.store in
      box "div" "flex h-full overflow-hidden" (
        sidebar_view month_year start_of_today ui.screen.sidebar_open store ui.editing
        ∷ box "main" "flex min-w-0 flex-1 flex-col" (
            app_header (title idb prefers_dark ui.screen)
            ∷ error_bar store.error
            ∷ chat_view markdown copied store
            ∷ composer_view locale s store.streaming ui.composer
            ∷ [])
        ∷ settings_view ui.screen.settings_open s ui.modal
        ∷ [])
