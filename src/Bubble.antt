-- ===== src/Bubble.antt =====
-- frontend/src/components/MessageBubble.tsx and ChatView.tsx: the text of a code block, and what
-- of a message is shown. Copying is about the copy buttons, Scrolling about the transcript.
pub mod Extract
pub mod Copying
pub mod Scrolling
mod Tests
use llm_router_ui.Prelude.{
  ℕ, Bool, true, false, ◌&&◌, not, Option, none, some, List, [], ◌∷◌, ◌++◌, reverse, if◌then◌else◌,
}
use llm_router_ui.Text.{Text, same, is_empty}
use llm_router_ui.Types.{Role, Message}
use llm_router_ui.Api.Errors.{truthy}
use llm_router_ui.Chats.{ChatState}

-- A React node: a text, an array, an element with its children, or something else (a number, a
-- Boolean, nothing). A node with no children has the child `other`.
mutual
  pub data Node : Type 0 where
    text : Text → Node
    array : Nodes → Node
    element : Node → Node
    other : Node

  pub data Nodes : Type 0 where
    nil : Nodes
    cons : Node → Nodes → Nodes

unfoldable mutual
  pub extract_text : Node → Text
  extract_text (text t) = t
  extract_text (array ns) = extract_all ns
  extract_text (element children) = extract_text children
  extract_text other = []

  -- `node.map(extractText).join('')`
  pub extract_all : Nodes → Text
  extract_all nil = []
  extract_all (cons n ns) = extract_text n ++ extract_all ns

unfoldable pub is_user : Message → Bool
is_user m = elim m.role [ Role.user ↦ true | Role.assistant ↦ false | Role.system ↦ false ]

unfoldable pub shows_copy : Bool → Message → Bool
shows_copy is_streaming m = not is_streaming && not (is_empty m.content)

-- the blinking caret before the first token, and the one behind the last
unfoldable pub shows_first_caret : Bool → Message → Bool
shows_first_caret is_streaming m = is_streaming && is_empty m.content

unfoldable pub shows_caret : Bool → Message → Bool
shows_caret is_streaming m = is_streaming && not (is_empty m.content)

unfoldable pub shown_error : Message → Option Text
unfolding truthy
shown_error m = truthy m.error

-- `streaming && m.id === streamingId`
unfoldable pub is_streaming : ChatState → Message → Bool
is_streaming s m = elim s.streaming_id [ none ↦ false | some id ↦ s.streaming && same m.id id ]

unfoldable pub can_regenerate : ChatState → Bool
can_regenerate s = elim (reverse s.messages) [
  | [] ↦ false
  | m ∷ ms ↦
      not s.streaming
      && elim m.role [ Role.assistant ↦ true | Role.user ↦ false | Role.system ↦ false ]
]
