-- ===== src/Bubble/Tests.antt =====
-- Messages at a concrete node and a concrete chat.
use llm_router_ui.Prelude.{◌≡◌, refl, true, List, ◌∷◌, reverse, filter, ltb}
use llm_router_ui.Text.{codes}
use llm_router_ui.Types.{Message}
use llm_router_ui.Idb.Assoc.{assoc_store}
use llm_router_ui.Chats.Send.{drop_last_turn}
use llm_router_ui.Bubble.{
  Node, text, array, element, other, nil, cons, extract_text, can_regenerate,
}
use llm_router_ui.Bubble.Extract.{can_regenerate-drop_last_turn}
use llm_router_ui.Samples.{screen}

abbrev highlighted : Node
highlighted = array (
    cons (element (text (codes "let")))
      (cons (text (codes " x")) (cons other (cons (element (array nil)) nil))))

extract_text_test : extract_text highlighted ≡ codes "let x"
unfolding extract_text
extract_text_test = refl

offered : can_regenerate screen.world.store ≡ true
unfolding can_regenerate
offered = refl

can_regenerate-drop_last_turn_example :
    (m : Message) × (ms : List Message) × (reverse screen.world.messages ≡ m ∷ ms)
    × ((drop_last_turn assoc_store screen.world (codes "c1")).messages
        ≡ filter (λ k. ltb k.created_at m.created_at) screen.world.messages)
can_regenerate-drop_last_turn_example =
    can_regenerate-drop_last_turn assoc_store screen.world (codes "c1") offered
