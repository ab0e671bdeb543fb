-- ===== src/Bubble/Scrolling.antt =====
-- The scrolling of frontend/src/components/ChatView.tsx: the transcript follows the answer while
-- the user is at its end. The browser keeps the offset, and reports each change of it.
use llm_router_ui.Prelude.{ℕ, ◌+◌, ◌-◌, ◌≤◌, ◌≡◌, Bool, true, false, ltb, arith, if◌then◌else◌}

pub record Scroll : Type 0 where
  pub pinned : Bool
  pub top : ℕ
  pub height : ℕ
  pub client : ℕ

-- `scrollHeight - scrollTop - clientHeight < 120`
unfoldable pub on_scroll : Scroll → Scroll
on_scroll s = record s { pinned = ltb s.height (s.top + s.client + 120) }

-- `scrollIntoView` of the element at the end
unfoldable pub to_end : Scroll → Scroll
to_end s = record s { top = s.height - s.client }

-- the effect of new messages, which make the transcript as high as given
unfoldable pub on_messages : ℕ → Scroll → Scroll
unfolding to_end
on_messages height s =
    let grown = record s { height = height } in if s.pinned then to_end grown else grown

-- the effect of another chat
unfoldable pub on_chat : Scroll → Scroll
unfolding to_end
on_chat s = to_end (record s { pinned = true })

-- Where the user has scrolled up, an answer that grows does not move the transcript, nor does its
-- report pin it; where the user is at the end, the end stays in sight and the transcript pinned.
pub on_messages-on_scroll :
    (height : ℕ) (s : Scroll)
    → s.height ≤ height
    → s.pinned ≡ ltb s.height (s.top + s.client + 120)
    → (let later = on_scroll (on_messages height s) in
        (s.pinned ≡ false → (later.top ≡ s.top) × (later.pinned ≡ false))
        × (s.pinned ≡ true → (height ≤ later.top + later.client) × (later.pinned ≡ true)))
unfolding on_scroll on_messages to_end
on_messages-on_scroll height s grows kept = (λ e. ground (arith, e), λ e. ground (arith, e))
