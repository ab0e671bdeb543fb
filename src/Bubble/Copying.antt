-- ===== src/Bubble/Copying.antt =====
-- The copy buttons of frontend/src/components/MessageBubble.tsx: what a press does to the
-- clipboard and to the page, and how long the button says `Copied`. What the browser answers is
-- given: whether `writeText` is allowed, and what `execCommand` does.
use llm_router_ui.Prelude.{
  ℕ, suc, ◌+◌, ◌<◌, ◌≡◌, refl, Bool, true, false, ◌||◌, ltb, Option, none, some, List, [], ◌∷◌,
  ◌++◌, In, In-append_right, filter, arith, inl, inr, if◌then◌else◌,
}
use llm_router_ui.Text.{Text}
use llm_router_ui.Bubble.{Node, extract_text}

-- an element of the body: the node, and the text of a `textarea`
abbrev pub Child : Type 0
Child = ℕ × Text

pub record Browser : Type 0 where
  pub clipboard : Text
  pub body : List Child
  pub selection : Option Text
  pub next_node : ℕ

unfoldable pub remove_child : ℕ → List Child → List Child
remove_child node = filter (λ c. ltb c.0 node || ltb node c.0)

-- `execCommand('copy')` copies the selection, or refuses, or throws
pub data Command : Type 0 where
  copies refuses throws : Command

abbrev pub selected : Browser → Text
selected b = elim b.selection [ none ↦ b.clipboard | some t ↦ t ]

-- the fallback; the flag says whether it ends without an error
unfoldable pub copy_by_selection : Command → Browser → Text → Browser × Bool
unfolding remove_child
copy_by_selection command b text =
    let node = b.next_node in
    let shown = record b {
      body = b.body ++ (node, text) ∷ [];
      selection = some text;
      next_node = suc node;
    } in
    let removed = record shown { body = remove_child node shown.body } in
    elim command [
      | copies ↦ (record removed { clipboard = selected shown }, true)
      | refuses ↦ (removed, true)
      | throws ↦ (removed, false)
    ]

unfoldable pub copy_text : Bool → Command → Browser → Text → Browser × Bool
unfolding copy_by_selection
copy_text may_write command b text =
    if may_write then (record b { clipboard = text }, true) else copy_by_selection command b text

-- the button of a code block copies the text of the `code` element
unfoldable pub copy_code : Bool → Command → Browser → Node → Browser × Bool
unfolding copy_text extract_text
copy_code may_write command b node = copy_text may_write command b (extract_text node)

-- the state of a button, and when its timers are due
pub record CopyState : Type 0 where
  pub copied : Bool
  pub timers : List ℕ

abbrev pub untouched : CopyState
untouched = record { copied = false; timers = [] }

-- `setCopied(true); setTimeout(() => setCopied(false), 1500)`, unless the copy threw
unfoldable pub copy_done : Bool → ℕ → CopyState → CopyState
copy_done ended now s =
    if ended then record { copied = true; timers = s.timers ++ (now + 1500) ∷ [] } else s

-- the first timer fires
unfoldable pub fire : CopyState → CopyState
fire s = elim s.timers [ [] ↦ s | due ∷ later ↦ record { copied = false; timers = later } ]

-- Presses, whatever the browser answers, and timers, in any order.
pub data Reach : CopyState → Type 0 where
  opens : Reach untouched
  presses : {s : CopyState} (ended : Bool) (now : ℕ) → Reach s → Reach (copy_done ended now s)
  fires : {s : CopyState} → Reach s → Reach (fire s)

-- a button that says `Copied` will stop saying so
abbrev pub IsPending : CopyState → Type 0
IsPending s = s.copied ≡ true → (due : ℕ) × In due s.timers

copy_done-IsPending :
    (ended : Bool) (now : ℕ) (s : CopyState) → IsPending s → IsPending (copy_done ended now s)
unfolding copy_done
copy_done-IsPending true now s h e =
    (now + 1500, In-append_right (now + 1500) s.timers ((now + 1500) ∷ []) (inl refl))
copy_done-IsPending false now s h e = h e

fire-IsPending :
    (copied : Bool) (timers : List ℕ)
    → IsPending (record { copied = copied; timers = timers })
    → IsPending (fire (record { copied = copied; timers = timers }))
unfolding fire
fire-IsPending copied [] h e = h e
fire-IsPending copied (due ∷ later) h e = absurd (cc)

-- However presses and timers come one after the other, and whatever the browser answers: while a
-- button says `Copied`, a timer that takes the word away is still to fire.
pub Reach-IsPending : {s : CopyState} → Reach s → IsPending s
Reach-IsPending opens e = absurd (cc)
Reach-IsPending (presses {s} ended now r) e = copy_done-IsPending ended now s (Reach-IsPending r) e
Reach-IsPending (fires {s} r) e = fire-IsPending s.copied s.timers (Reach-IsPending r) e

-- every node of the body is older than the next one
abbrev pub AreOlder : ℕ → List Child → Type 0
AreOlder node body = (c : Child) → In c body → c.0 < node

remove_child-append :
    (node : ℕ) (text : Text) (body : List Child)
    → AreOlder node body
    → remove_child node (body ++ (node, text) ∷ []) ≡ body
unfolding remove_child filter
remove_child-append node text [] older = ground arith
remove_child-append node text (c ∷ body) older =
    let first = older c (inl refl) in
    let rest = remove_child-append node text body (λ d m. older d (inr m)) in
    ground (arith, rest, first)

-- Whatever the browser answers to a press, an error included, the page has the elements that it had
-- before: the text area of the fallback is gone.
pub copy_text-body :
    (may_write : Bool) (command : Command) (b : Browser) (text : Text)
    → AreOlder b.next_node b.body
    → (copy_text may_write command b text).0.body ≡ b.body
unfolding copy_text copy_by_selection
copy_text-body true command b text older = refl
copy_text-body false copies b text older = remove_child-append b.next_node text b.body older
copy_text-body false refuses b text older = remove_child-append b.next_node text b.body older
copy_text-body false throws b text older = remove_child-append b.next_node text b.body older
