-- ===== src/Sidebar/Groups.antt =====
-- The groups of frontend/src/components/Sidebar.tsx hold each chat once, under its label.
use llm_router_ui.Prelude.{
  ◌≡◌, sym, subst, ap, ◌∙◌, ℕ, false, List, [], ◌∷◌, ◌++◌, filter, All, arith, Bool-cases, inl, inr,
  if◌then◌else◌,
}
use llm_router_ui.Prelude.Sort.{IsSorted}
use mathlib.Core.List.{append_assoc, append-nil}
use llm_router_ui.Text.{Text, same}
use llm_router_ui.Text.Laws.{same→eq, same_refl}
use llm_router_ui.Types.{Chat}
use llm_router_ui.Utils.{group_by_date}
use llm_router_ui.Sidebar.{Buckets, file_under, file_chats, groups}

-- the chats that are filed under a label
unfoldable pub bucket : Text → Buckets → List Chat
bucket l [] = []
bucket l (b ∷ bs) = let rest = bucket l bs in if same b.0 l then b.1 else rest

-- no two groups have one label
abbrev pub HaveOwnLabels : Buckets → Type 0
HaveOwnLabels = IsSorted (λ a b. same a.0 b.0 ≡ false)

bucket-file_under_hit :
    (k : Text) (c : Chat) (bs : Buckets) → bucket k (file_under k c bs) ≡ bucket k bs ++ c ∷ []
unfolding bucket file_under
bucket-file_under_hit k c [] = rw (same_refl k)
bucket-file_under_hit k c (b ∷ bs) = ground (arith, bucket-file_under_hit k c bs)

bucket-file_under_miss :
    (l k : Text) (c : Chat) (bs : Buckets)
    → same k l ≡ false
    → bucket l (file_under k c bs) ≡ bucket l bs
unfolding bucket file_under
bucket-file_under_miss l k c [] h = rw h
bucket-file_under_miss l k c (b ∷ bs) h =
    ground (arith, bucket-file_under_miss l k c bs h, same→eq b.0 k)

All-file_under :
    (l k : Text) (c : Chat) (bs : Buckets)
    → same l k ≡ false
    → All (λ b. same l b.0 ≡ false) bs
    → All (λ b. same l b.0 ≡ false) (file_under k c bs)
unfolding file_under
All-file_under l k c [] e h = (e, tt)
All-file_under l k c (b ∷ bs) e h = elim (Bool-cases (same b.0 k)) [
  | inl here ↦ rw here h
  | inr other ↦ rw other (h.0, All-file_under l k c bs e h.1)
]

file_under-HaveOwnLabels :
    (k : Text) (c : Chat) (bs : Buckets) → HaveOwnLabels bs → HaveOwnLabels (file_under k c bs)
unfolding file_under
file_under-HaveOwnLabels k c [] h = (tt, tt)
file_under-HaveOwnLabels k c (b ∷ bs) h = elim (Bool-cases (same b.0 k)) [
  | inl here ↦ rw here h
  | inr other ↦ rw other (All-file_under b.0 k c bs other h.0, file_under-HaveOwnLabels k c bs h.1)
]

module _ (label : Chat → Text) where
  bucket-file_chats :
      (l : Text) (cs : List Chat) (bs : Buckets)
      → bucket l (file_chats label bs cs) ≡ bucket l bs ++ filter (λ c. same (label c) l) cs
  unfolding file_chats filter
  bucket-file_chats l [] bs = sym (append-nil (bucket l bs))
  bucket-file_chats l (c ∷ cs) bs = elim (Bool-cases (same (label c) l)) [
    | inl here ↦
        let rest = filter (λ x. same (label x) l) cs in
        let hit =
          subst (λ k. bucket k (file_under (label c) c bs) ≡ bucket k bs ++ c ∷ [])
            (same→eq (label c) l here) (bucket-file_under_hit (label c) c bs) in
        rw here (
          bucket-file_chats l cs (file_under (label c) c bs)
          ∙ (ap (λ x. x ++ rest) hit ∙ append_assoc (bucket l bs) (c ∷ []) rest))
    | inr other ↦
        let rest = filter (λ x. same (label x) l) cs in
        rw other (
          bucket-file_chats l cs (file_under (label c) c bs)
          ∙ ap (λ x. x ++ rest) (bucket-file_under_miss l (label c) c bs other))
  ]

  file_chats-HaveOwnLabels :
      (cs : List Chat) (bs : Buckets) → HaveOwnLabels bs → HaveOwnLabels (file_chats label bs cs)
  unfolding file_chats
  file_chats-HaveOwnLabels [] bs h = h
  file_chats-HaveOwnLabels (c ∷ cs) bs h =
      file_chats-HaveOwnLabels cs (file_under (label c) c bs)
        (file_under-HaveOwnLabels (label c) c bs h)

-- Under each label stand exactly the chats that groupByDate gives that label, in the order of the
-- list, and no two groups have one label.
pub groups_exact :
    (month_year : ℕ → Text) (start_of_today : ℕ) (chats : List Chat) (l : Text)
    → (bucket l (groups month_year start_of_today chats)
        ≡ filter (λ c. same (group_by_date month_year start_of_today c.updated_at) l) chats)
      × HaveOwnLabels (groups month_year start_of_today chats)
unfolding groups bucket
groups_exact month_year start_of_today chats l = (
  bucket-file_chats (λ c. group_by_date month_year start_of_today c.updated_at) l chats [],
  file_chats-HaveOwnLabels (λ c. group_by_date month_year start_of_today c.updated_at) chats [] tt,
)
