-- ===== src/View/Bubble.antt =====
-- The view of frontend/src/components/MessageBubble.tsx. ReactMarkdown is a parameter: given what
-- to make of a link and of a code block, it renders a text. It keeps the state of each block.
use Prim.Native.String.{String}
use llm_router_ui.Prelude.{Bool, none, some, List, [], ◌∷◌, ◌++◌, if◌then◌else◌}
use llm_router_ui.Text.{Text, codes}
use llm_router_ui.Types.{Message}
use llm_router_ui.Utils.{cn}
use llm_router_ui.Api.Errors.{truthy}
use llm_router_ui.Bubble.{
  Node, extract_text, is_user, shows_copy, shows_first_caret, shows_caret, shown_error,
}
use llm_router_ui.View.Actions.{copy}
use llm_router_ui.View.{
  Attribute, prop, value, on, View, Views, nothing, text, element, el, say, when, box,
}
use llm_router_ui.View.Icons.{icon_check, icon_copy}

pub record Markdown : Type 0 where
  pub render : (List Attribute → Views → View) → (Bool → Node → View → View) → Text → View

-- the icon of a copy button, which changes for a while after a press
unfoldable pub copy_icon : Bool → View
copy_icon copied =
    if copied then icon_check (codes "h-4 w-4 text-accent") else icon_copy (codes "h-4 w-4")

unfoldable pub copy_label : Bool → String → Text
copy_label copied label = if copied then codes "Copied" else codes label

unfoldable pub copy_button : Bool → Text → View
unfolding copy_icon copy_label
copy_button copied content =
    el "button"
      (on "onClick" (copy content)
        ∷ value "title" (copy_label copied "Copy message")
        ∷ value "aria-label" (copy_label copied "Copy message")
        ∷ prop "className"
            "rounded-md p-1.5 text-surface-700/60 transition-colors hover:bg-surface-100 hover:text-surface-900 dark:text-surface-200/50 dark:hover:bg-surface-700 dark:hover:text-surface-100"
        ∷ [])
      (copy_icon copied ∷ [])

-- `el` is the node inside of the `code` element, `children` its view
unfoldable pub code_block : Bool → Node → View → View
unfolding copy_icon copy_label extract_text
code_block copied node children = box "div" "group/code relative my-3" (
    el "button"
      (on "onClick" (copy (extract_text node))
        ∷ value "title" (copy_label copied "Copy code")
        ∷ value "aria-label" (copy_label copied "Copy code")
        ∷ prop "className"
            "absolute right-2 top-2 z-10 rounded-md bg-surface-800/80 p-1.5 text-surface-200 opacity-0 backdrop-blur transition-opacity hover:bg-surface-800 group-hover/code:opacity-100 dark:bg-surface-700/80 dark:hover:bg-surface-700"
        ∷ [])
      (copy_icon copied ∷ [])
    ∷ box "pre"
        "overflow-x-auto rounded-lg bg-surface-900 p-4 text-sm leading-6 dark:bg-surface-950 [&_code]:bg-transparent [&_code]:p-0"
        (children ∷ [])
    ∷ [])

-- a link opens in a window of its own, which learns nothing of this one
unfoldable pub external_link : List Attribute → Views → View
external_link attributes children =
    element "a" (attributes ++ prop "target" "_blank" ∷ prop "rel" "noreferrer noopener" ∷ [])
      children

unfoldable pub user_bubble : Bool → Message → Bool → View
unfolding copy_button shows_copy
user_bubble copied m is_streaming = box "div" "group w-full animate-fade-in" (
    box "div" "mx-auto flex max-w-3xl justify-end px-4 py-3 sm:px-6" (
      box "div" "flex min-w-0 flex-col items-end gap-1" (
        box "div"
          "whitespace-pre-wrap break-words rounded-3xl rounded-tr-md bg-surface-100 px-4 py-2.5 text-[15px] leading-7 dark:bg-surface-800"
          (text m.content ∷ [])
        ∷ when (shows_copy is_streaming m) (
            box "div"
              "flex opacity-0 transition-opacity focus-within:opacity-100 group-hover:opacity-100"
              (copy_button copied m.content ∷ []))
        ∷ [])
      ∷ [])
    ∷ [])

-- the name of the model, unless it is missing or empty
unfoldable pub model_label : Message → View
unfolding truthy
model_label m = elim (truthy m.model) [
  | none ↦ nothing
  | some name ↦
      box "span" "truncate text-xs text-surface-700/50 dark:text-surface-200/40" (text name ∷ [])
]

unfoldable pub error_note : Message → View
unfolding shown_error
error_note m = elim (shown_error m) [
  | none ↦ nothing
  | some message ↦
      el "div"
        (prop "role" "alert"
          ∷ prop "className"
              "mt-3 rounded-lg border border-red-300 bg-red-50 px-3 py-2 text-sm text-red-700 dark:border-red-900/60 dark:bg-red-950/40 dark:text-red-300"
          ∷ [])
        (text message ∷ [])
]

module _ (markdown : Markdown) where
  unfoldable pub prose : Message → Bool → View
  unfolding cn shows_first_caret shows_caret external_link code_block
  prose m is_streaming =
      el "div"
        (value "className" (
            cn (
              some (codes "prose-chat")
              ∷ (if shows_first_caret is_streaming m then some (codes "caret") else none)
              ∷ []))
          ∷ [])
        (markdown.render external_link code_block m.content
          ∷ when (shows_caret is_streaming m)
              (box "span" "ml-0.5 inline-block animate-blink text-accent" (say "▍" ∷ []))
          ∷ [])

  unfoldable pub assistant_bubble : Bool → Message → Bool → View
  unfolding model_label prose error_note copy_button shows_copy
  assistant_bubble copied m is_streaming =
      box "div" "group w-full animate-fade-in px-4 py-3 sm:px-6" (
        box "div" "mx-auto flex max-w-3xl gap-3 sm:gap-4" (
          el "div"
            (prop "className"
                "flex h-7 w-7 shrink-0 select-none items-center justify-center rounded-full border border-surface-300 text-xs font-semibold text-surface-600 dark:border-surface-600 dark:text-surface-300"
              ∷ prop "aria-hidden" "true"
              ∷ [])
            (say "AI" ∷ [])
          ∷ box "div" "min-w-0 flex-1" (
              box "div" "mb-1 flex items-center gap-2"
                (box "span" "text-sm font-semibold" (say "Assistant" ∷ []) ∷ model_label m ∷ [])
              ∷ prose m is_streaming
              ∷ error_note m
              ∷ when (shows_copy is_streaming m) (
                  box "div"
                    "mt-2 flex opacity-0 transition-opacity focus-within:opacity-100 group-hover:opacity-100"
                    (copy_button copied m.content ∷ []))
              ∷ [])
          ∷ [])
        ∷ [])

  unfoldable pub message_bubble : Bool → Message → Bool → View
  unfolding user_bubble assistant_bubble is_user
  message_bubble copied m is_streaming =
      if is_user m
      then user_bubble copied m is_streaming
      else assistant_bubble copied m is_streaming
