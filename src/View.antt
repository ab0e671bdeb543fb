-- ===== src/View.antt =====
-- What the JSX of frontend/src/App.tsx and frontend/src/components builds: elements with
-- attributes, handlers and children. A handler holds the action that it calls. White space in a
-- class name is one blank; a numeric attribute is written as its text.
pub mod Actions
pub mod Icons
pub mod Bubble
pub mod Chat
pub mod Sidebar
pub mod Composer
pub mod Settings
pub mod App
pub mod Offers
pub mod Markup
mod Tests
use Prim.Native.String.{String}
use llm_router_ui.Prelude.{Bool, true, false, ◌||◌, List, [], ◌∷◌, ◌++◌, if◌then◌else◌, map}
use llm_router_ui.Text.{Text, codes}
use llm_router_ui.View.Actions.{Action}
use llm_router_ui.Composer.{KeyEvent}

pub data Attribute : Type 0 where
  -- a literal, a computed text, a Boolean
  prop : String → String → Attribute
  value : String → Text → Attribute
  flag : String → Bool → Attribute
  disabled : Bool → Attribute
  -- a handler that looks at nothing, at `e.target.value`, at `e.target.checked`, at the key
  on : String → Action → Attribute
  on_text : String → (Text → Action) → Attribute
  on_check : (Bool → Action) → Attribute
  on_key : (KeyEvent → Action) → Attribute

mutual
  pub data View : Type 0 where
    -- `false` and `null`
    nothing : View
    text : Text → View
    element : String → List Attribute → Views → View
    fragment : Views → View

  pub data Views : Type 0 where
    nil : Views
    cons : View → Views → Views

abbrev pub views : List View → Views
views [] = nil
views (v ∷ vs) = cons v (views vs)

abbrev pub el : String → List Attribute → List View → View
el tag attributes children = element tag attributes (views children)

abbrev pub many : List View → View
many children = fragment (views children)

-- a literal text
abbrev pub say : String → View
say s = text (codes s)

-- `{test && view}`
abbrev pub when : Bool → View → View
when test v = if test then v else nothing

-- an element with nothing but a literal class
abbrev pub box : String → String → List View → View
box tag class_name children = el tag (prop "className" class_name ∷ []) children
