-- ===== src/Models/Laws.antt =====
-- What the model picker lists, and in which order.
use llm_router_ui.Prelude.{
  ◌≡◌, ◌≢◌, ◌↔◌, ◌⊎◌, sym, true, false, not, List, [], ◌∷◌, In, In-of_filter, In-filter, arith,
  iff_trans, All-of_In,
}
use llm_router_ui.Prelude.Sort.{
  In-sort_iff, IsSorted, sort-IsSorted, sort-pairwise, IsSorted-filter,
}
use llm_router_ui.Text.{Text, same, trim}
use llm_router_ui.Text.Laws.{same_iff}
use llm_router_ui.Models.{Locale, distinct, auto, matches, picker_order, filter_models}

distinct_iff : (m : Text) (ms : List Text) → In m (distinct ms) ↔ In m ms
unfolding distinct
distinct_iff m [] = ground arith
distinct_iff m (k ∷ ms) = ground (
  arith,
  distinct_iff m ms,
  In-of_filter m (λ (j : Text). not (same k j)) (distinct ms),
  In-filter m (λ (j : Text). not (same k j)) (distinct ms),
  same_iff k m,
)

-- no two places of the list hold the same text
abbrev pub AreDistinct : List Text → Type 0
AreDistinct = IsSorted (λ a b. a ≢ b)

distinct-AreDistinct : (ms : List Text) → AreDistinct (distinct ms)
unfolding distinct
distinct-AreDistinct [] = tt
distinct-AreDistinct (k ∷ ms) = (
  All-of_In (λ b. k ≢ b) _
      (λ b m.
        ground
          (arith, In-of_filter b (λ (j : Text). not (same k j)) (distinct ms) m, same_iff k b)),
  IsSorted-filter (λ a b. a ≢ b) _ (distinct ms) (distinct-AreDistinct ms),
)

module _ (locale : Locale) where
  open locale use {lower, before, before_total, before_trans}

  -- `auto` before all, the others in the order of the locale
  abbrev pub Precedes : Text → Text → Type 0
  Precedes a b = (a ≡ auto) ⊎ ((b ≢ auto) × (before a b ≡ true))

  order→Precedes : (a b : Text) → picker_order locale a b ≡ true → Precedes a b
  unfolding picker_order
  order→Precedes a b h = ground (arith, same_iff a auto, same_iff b auto)

  not_order→Precedes : (a b : Text) → picker_order locale a b ≡ false → Precedes b a
  unfolding picker_order
  not_order→Precedes a b h = ground (arith, same_iff a auto, same_iff b auto, before_total a b)

  Precedes-trans : (a b c : Text) → Precedes a b → Precedes b c → Precedes a c
  Precedes-trans a b c h k = ground (arith, before_trans a b c)

  -- The picker lists each model that matches the query once and nothing else, `auto` first and
  -- the others in the order of the locale.
  pub filter_models_exact :
      (models : List Text) (query : Text)
      → ((m : Text)
          → In m (filter_models locale models query)
            ↔ In m models × (matches locale (lower (trim query)) m ≡ true))
        × AreDistinct (filter_models locale models query)
        × IsSorted Precedes (filter_models locale models query)
  unfolding filter_models
  filter_models_exact models query =
      let needle = lower (trim query) in
      (
        λ m. iff_trans (In-sort_iff (picker_order locale) m _) (
          λ h.
              let (listed, hit) = In-of_filter m (matches locale needle) (distinct models) h in
              ((distinct_iff m models).0 listed, hit),
          λ h.
              In-filter m (matches locale needle) (distinct models) ((distinct_iff m models).1 h.0)
                h.1,
        ),
        sort-pairwise (picker_order locale) (λ a b. a ≢ b) (λ a b h e. h (sym e)) _
            (IsSorted-filter (λ a b. a ≢ b) _ (distinct models) (distinct-AreDistinct models)),
        sort-IsSorted (picker_order locale) Precedes order→Precedes not_order→Precedes
            Precedes-trans _,
      )
