-- ===== src/View/Chat.antt =====
-- The view of frontend/src/components/ChatView.tsx.
use llm_router_ui.Prelude.{Bool, List, [], ◌∷◌, map}
use llm_router_ui.Text.{Text, codes}
use llm_router_ui.Types.{Message}
use llm_router_ui.Chats.{ChatState}
use llm_router_ui.Bubble.{is_streaming, can_regenerate}
use llm_router_ui.View.Actions.{press_regenerate}
use llm_router_ui.View.{prop, on, View, el, many, say, when, box}
use llm_router_ui.View.Icons.{icon_lock, icon_refresh}
use llm_router_ui.View.Bubble.{Markdown, message_bubble}

abbrev pub welcome : View
welcome = box "div" "flex flex-1 items-center justify-center px-6" (
    box "div" "max-w-md text-center" (
      box "h1" "mb-3 text-2xl font-semibold text-surface-800 dark:text-surface-100"
        (say "What can I help with?" ∷ [])
      ∷ box "p" "mb-6 text-sm text-surface-500 dark:text-surface-400"
          (say "A ChatGPT-style interface for any OpenAI-compatible API." ∷ [])
      ∷ box "p"
          "inline-flex items-center gap-2 rounded-full bg-surface-100 px-3 py-1.5 text-xs text-surface-500 dark:bg-surface-800 dark:text-surface-400"
          (icon_lock (codes "h-3.5 w-3.5") ∷ say "Chats never leave your browser" ∷ [])
      ∷ [])
    ∷ [])

module _ (markdown : Markdown) where
  -- each message with the state of its copy button
  unfoldable pub transcript : (copied : Text → Bool) → ChatState → List Message → View
  unfolding message_bubble is_streaming
  transcript copied s messages =
      many (map (λ m. message_bubble markdown (copied m.id) m (is_streaming s m)) messages)

  abbrev pub regenerate_button : View
  regenerate_button = box "div" "flex justify-center py-4" (
      el "button"
        (on "onClick" press_regenerate
          ∷ prop "className" "btn-ghost border border-surface-200 dark:border-surface-700"
          ∷ [])
        (icon_refresh (codes "h-4 w-4") ∷ say "Regenerate" ∷ [])
      ∷ [])

  unfoldable pub chat_view : (copied : Text → Bool) → ChatState → View
  unfolding transcript can_regenerate
  chat_view copied s = elim s.messages [
    | [] ↦ welcome
    | m ∷ ms ↦ box "div" "scrollbar-thin flex-1 overflow-y-auto" (
        transcript copied s s.messages
        ∷ when (can_regenerate s) regenerate_button
        ∷ box "div" "h-4" []
        ∷ [])
  ]
