-- ===== src/Sidebar/Tests.antt =====
-- The sidebar at concrete chats.
use llm_router_ui.Prelude.{◌≡◌, refl, ℕ, [], ◌∷◌, filter}
use llm_router_ui.Text.{Text, codes, same}
use llm_router_ui.Utils.{group_by_date}
use llm_router_ui.Sidebar.{groups, file_chats, file_under}
use llm_router_ui.Sidebar.Groups.{bucket, HaveOwnLabels, groups_exact}
use llm_router_ui.Samples.{trip, work}

abbrev march : ℕ → Text
march ts = codes "March"

-- midnight at thirty: one chat is of today, the other of the day before
groups_test :
    groups march 30 (trip ∷ work ∷ [])
    ≡ (codes "Today", trip ∷ []) ∷ (codes "Yesterday", work ∷ []) ∷ []
unfolding groups file_chats file_under group_by_date same
groups_test = refl

groups_exact_example :
    (bucket (codes "Yesterday") (groups march 30 (trip ∷ work ∷ []))
      ≡ filter
          (λ c. same (group_by_date march 30 c.updated_at) (codes "Yesterday"))
          (trip ∷ work ∷ []))
    × HaveOwnLabels (groups march 30 (trip ∷ work ∷ []))
groups_exact_example = groups_exact march 30 (trip ∷ work ∷ []) (codes "Yesterday")
