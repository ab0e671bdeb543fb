-- ===== src/Bubble/Extract.antt =====
-- What frontend/src/components/MessageBubble.tsx copies from a code block, and when ChatView.tsx
-- offers to regenerate.
use llm_router_ui.Prelude.{
  ◌≡◌, refl, sym, ap, ap₂, ◌∙◌, ◌⊎◌, Bool, true, false, ◌&&◌, List, [], ◌∷◌, ◌++◌, filter, find,
  ltb, reverse, inl, inr,
}
use mathlib.Core.List.{append_assoc, append-nil}
use llm_router_ui.Text.{Text}
use llm_router_ui.Types.{Role, Message}
use llm_router_ui.Idb.{ObjectStore}
use llm_router_ui.Chats.{World, ChatState}
use llm_router_ui.Chats.Send.{is_assistant, drop_last_turn}
use llm_router_ui.Bubble.{
  Node, Nodes, text, array, element, other, nil, cons, extract_text, extract_all, can_regenerate,
}

-- the texts at the leaves, from left to right
unfoldable mutual
  pub leaves : Node → List Text
  leaves (text t) = t ∷ []
  leaves (array ns) = all_leaves ns
  leaves (element children) = leaves children
  leaves other = []

  pub all_leaves : Nodes → List Text
  all_leaves nil = []
  all_leaves (cons n ns) = leaves n ++ all_leaves ns

abbrev pub concat : List Text → Text
concat [] = []
concat (t ∷ ts) = t ++ concat ts

concat-append : (ss ts : List Text) → concat (ss ++ ts) ≡ concat ss ++ concat ts
concat-append [] ts = refl
concat-append (s ∷ ss) ts =
    ap (λ x. s ++ x) (concat-append ss ts) ∙ sym (append_assoc s (concat ss) (concat ts))

mutual
  unfolding extract_text extract_all leaves all_leaves

  text_of_leaves : (n : Node) → extract_text n ≡ concat (leaves n)
  text_of_leaves (text t) = sym (append-nil t)
  text_of_leaves (array ns) = all_of_leaves ns
  text_of_leaves (element children) = text_of_leaves children
  text_of_leaves other = refl

  all_of_leaves : (ns : Nodes) → extract_all ns ≡ concat (all_leaves ns)
  all_of_leaves nil = refl
  all_of_leaves (cons n ns) =
      ap₂ ◌++◌ (text_of_leaves n) (all_of_leaves ns)
      ∙ sym (concat-append (leaves n) (all_leaves ns))

-- The text of a node is that of its leaves from left to right, however they are nested.
pub extract_text-leaves : (n : Node) → extract_text n ≡ concat (leaves n)
extract_text-leaves = text_of_leaves

List-cases : {A : Type 0} (xs : List A) → (xs ≡ []) ⊎ ((a : A) × (ys : List A) × (xs ≡ a ∷ ys))
List-cases [] = inl refl
List-cases (a ∷ ys) = inr (a, ys, refl)

assistant_of :
    (b : Bool) (r : Role)
    → (b && elim r [ Role.assistant ↦ true | Role.user ↦ false | Role.system ↦ false ]) ≡ true
    → is_assistant r ≡ true
unfolding is_assistant
assistant_of b Role.assistant h = refl
assistant_of true Role.user h = h
assistant_of true Role.system h = h
assistant_of false Role.user h = h
assistant_of false Role.system h = h

last_is_assistant :
    (s : ChatState)
    → can_regenerate s ≡ true
    → (m : Message) × (ms : List Message) × (reverse s.messages ≡ m ∷ ms)
      × (is_assistant m.role ≡ true)
unfolding can_regenerate is_assistant
last_is_assistant s h = elim (List-cases (reverse s.messages)) [
  | inl e ↦ absurd (let k = rw (can_regenerate, e) at h in cc)
  | inr (m, ms, e) ↦ (m, ms, e, let k = rw (can_regenerate, e) at h in assistant_of _ m.role k)
]

module _ (idb : ObjectStore) where
  -- Where the view offers to regenerate, the turn that is dropped begins at the last message
  -- shown: it goes, with every message that is not older.
  pub can_regenerate-drop_last_turn :
      (w : World idb) (chat_id : Text)
      → can_regenerate w.store ≡ true
      → (m : Message) × (ms : List Message) × (reverse w.messages ≡ m ∷ ms)
        × ((drop_last_turn idb w chat_id).messages
            ≡ filter (λ k. ltb k.created_at m.created_at) w.messages)
  unfolding drop_last_turn find
  can_regenerate-drop_last_turn w chat_id h =
      let (m, ms, e, a) = last_is_assistant w.store h in (m, ms, e, rw (drop_last_turn, e, a))
