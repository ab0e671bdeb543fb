-- ===== src/View/Sidebar.antt =====
-- The view of frontend/src/components/Sidebar.tsx.
use llm_router_ui.Prelude.{ℕ, Bool, true, Option, some, List, [], ◌∷◌, map, if◌then◌else◌}
use llm_router_ui.Text.{Text, codes}
use llm_router_ui.Types.{Chat}
use llm_router_ui.Utils.{cn}
use llm_router_ui.Settings.{is_id}
use llm_router_ui.Chats.{ChatState}
use llm_router_ui.Sidebar.{Editing, Buckets, groups}
use llm_router_ui.View.Actions.{
  close_sidebar, press_new_chat, press_settings, select, press_delete, rename_blur, type_title,
  rename_press, start_rename,
}
use llm_router_ui.View.{
  prop, value, flag, on, on_text, on_key, View, nothing, text, el, many, say, box,
}
use llm_router_ui.View.Icons.{
  icon_chat, icon_close, icon_edit, icon_lock, icon_plus, icon_settings, icon_trash,
}

-- behind the drawer on a small screen
unfoldable pub scrim : Bool → View
unfolding cn
scrim open_now =
    el "div"
      (on "onClick" close_sidebar
        ∷ prop "aria-hidden" "true"
        ∷ value "className" (
            cn (
              some (codes "fixed inset-0 z-30 bg-black/50 transition-opacity md:hidden")
              ∷ some
                  (if open_now then codes "opacity-100" else codes "pointer-events-none opacity-0")
              ∷ []))
        ∷ [])
      []

abbrev pub new_chat_button : View
new_chat_button =
    el "button"
      (on "onClick" press_new_chat
        ∷ prop "className"
            "flex flex-1 items-center gap-2 rounded-lg px-3 py-2.5 text-sm font-medium transition-colors hover:bg-surface-100 dark:hover:bg-surface-800"
        ∷ [])
      (icon_plus (codes "h-4 w-4") ∷ say "New chat" ∷ [])

abbrev pub close_button : View
close_button =
    el "button"
      (on "onClick" close_sidebar
        ∷ prop "className"
            "rounded-lg p-2.5 transition-colors hover:bg-surface-100 dark:hover:bg-surface-800 md:hidden"
        ∷ prop "aria-label" "Close sidebar"
        ∷ [])
      (icon_close (codes "h-5 w-5") ∷ [])

abbrev pub no_chats : View
no_chats =
    box "p" "px-3 py-8 text-center text-sm text-surface-400 dark:text-surface-600"
      (say "No chats yet." ∷ el "br" [] [] ∷ say "Start a conversation." ∷ [])

-- the title of a chat while it is edited
unfoldable pub rename_input : Editing → Chat → View
rename_input e chat =
    el "input"
      (flag "autoFocus" true
        ∷ value "value" e.draft
        ∷ on_text "onChange" type_title
        ∷ on "onBlur" (rename_blur chat.id)
        ∷ on_key (rename_press chat.id)
        ∷ prop "aria-label" "Chat title"
        ∷ prop "className"
            "w-full rounded-lg bg-surface-100 px-3 py-2 text-sm outline-none ring-1 ring-surface-400 dark:bg-surface-800"
        ∷ [])
      []

abbrev pub row_buttons : Chat → View
row_buttons chat =
    box "span"
      "flex shrink-0 gap-0.5 opacity-0 transition-opacity focus-within:opacity-100 group-hover:opacity-100"
      (el "button"
          (on "onClick" (start_rename chat)
            ∷ prop "className" "rounded p-1 hover:bg-surface-200 dark:hover:bg-surface-700"
            ∷ prop "title" "Rename"
            ∷ prop "aria-label" "Rename chat"
            ∷ [])
          (icon_edit (codes "h-3.5 w-3.5") ∷ [])
        ∷ el "button"
            (on "onClick" (press_delete chat.id)
              ∷ prop "className"
                  "rounded p-1 hover:bg-surface-200 hover:text-red-500 dark:hover:bg-surface-700"
              ∷ prop "title" "Delete"
              ∷ prop "aria-label" "Delete chat"
              ∷ [])
            (icon_trash (codes "h-3.5 w-3.5") ∷ [])
        ∷ [])

unfoldable pub chat_row : Option Text → Chat → View
unfolding cn
chat_row active_id chat =
    el "div"
      (value "className" (
          cn (
            some
              (codes "group flex items-center gap-2 rounded-lg px-3 py-2 text-sm transition-colors")
            ∷ some (
                if is_id active_id chat.id
                then codes "bg-surface-100 dark:bg-surface-800"
                else codes "hover:bg-surface-100 dark:hover:bg-surface-800/60")
            ∷ []))
        ∷ [])
      (el "button"
          (on "onClick" (select chat.id)
            ∷ prop "className" "flex min-w-0 flex-1 items-center gap-2 text-left"
            ∷ [])
          (icon_chat (codes "h-4 w-4 shrink-0 opacity-50")
            ∷ box "span" "truncate" (text chat.title ∷ [])
            ∷ [])
        ∷ row_buttons chat
        ∷ [])

unfoldable pub chat_item : Option Text → Editing → Chat → View
unfolding chat_row rename_input
chat_item active_id e chat =
    el "li" []
      ((if is_id e.editing_id chat.id then rename_input e chat else chat_row active_id chat) ∷ [])

unfoldable pub group_section : Option Text → Editing → Text × List Chat → View
unfolding chat_item
group_section active_id e (label, items) = el "section" [] (
    box "h2"
      "px-3 pb-1.5 pt-2 text-xs font-medium uppercase tracking-wide text-surface-400 dark:text-surface-600"
      (text label ∷ [])
    ∷ box "ul" "space-y-0.5" (map (chat_item active_id e) items)
    ∷ [])

unfoldable pub chat_list : Buckets → ChatState → Editing → View
unfolding group_section
chat_list buckets s e = box "nav" "scrollbar-thin flex-1 space-y-4 overflow-y-auto px-2 pb-2" (
    elim s.chats [ [] ↦ no_chats | c ∷ cs ↦ nothing ]
    ∷ many (map (group_section s.active_chat_id e) buckets)
    ∷ [])

abbrev pub sidebar_footer : View
sidebar_footer = box "div" "safe-bottom border-t border-surface-200 p-2 dark:border-surface-800" (
    el "button"
      (on "onClick" press_settings
        ∷ prop "className"
            "flex w-full items-center gap-2 rounded-lg px-3 py-2.5 text-sm transition-colors hover:bg-surface-100 dark:hover:bg-surface-800"
        ∷ [])
      (icon_settings (codes "h-4 w-4") ∷ say "Settings" ∷ [])
    ∷ box "p" "flex items-center gap-1.5 px-3 py-2 text-xs text-surface-400 dark:text-surface-600"
        (icon_lock (codes "h-3 w-3") ∷ say "Stored locally in your browser" ∷ [])
    ∷ [])

-- `month_year` and the midnight of today are what `groupByDate` asks of the platform
unfoldable pub sidebar_view : (ℕ → Text) → ℕ → Bool → ChatState → Editing → View
unfolding scrim chat_list groups cn
sidebar_view month_year start_of_today open_now s e = many (
    scrim open_now
    ∷ el "aside"
        (value "className" (
            cn (
              some (
                codes
                  "fixed inset-y-0 left-0 z-40 flex w-[260px] flex-col bg-surface-50 text-surface-700")
              ∷ some (codes "border-r border-surface-200 transition-transform duration-200")
              ∷ some (
                  codes
                    "md:static md:z-auto md:translate-x-0 dark:bg-surface-900 dark:border-surface-800 dark:text-surface-300")
              ∷ some (if open_now then codes "translate-x-0" else codes "-translate-x-full")
              ∷ []))
          ∷ [])
        (box "div" "safe-top flex items-center gap-2 p-3" (new_chat_button ∷ close_button ∷ [])
          ∷ chat_list (groups month_year start_of_today s.chats) s e
          ∷ sidebar_footer
          ∷ [])
    ∷ [])
