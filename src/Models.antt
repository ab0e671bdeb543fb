-- ===== src/Models.antt =====
-- frontend/src/lib/models.ts: the list of the model picker. Lower case and the order of
-- `localeCompare` belong to the platform: they are a parameter, the order total and transitive.
pub mod Laws
mod Tests
use llm_router_ui.Prelude.{◌≡◌, Bool, true, false, ◌||◌, not, List, [], ◌∷◌, filter, if◌then◌else◌}
use llm_router_ui.Prelude.Sort.{sort}
use llm_router_ui.Text.{Text, codes, same, is_empty, trim, includes, contains}

pub record Locale : Type 0 where
  pub lower : Text → Text
  -- `a.localeCompare(b) <= 0`
  pub before : Text → Text → Bool
  pub before_total : (a b : Text) → before a b ≡ false → before b a ≡ true
  pub before_trans : (a b c : Text) → before a b ≡ true → before b c ≡ true → before a c ≡ true

-- `[...new Set(models)]`: each text once, at its first place
unfoldable pub distinct : List Text → List Text
distinct [] = []
distinct (m ∷ ms) = m ∷ filter (λ k. not (same m k)) (distinct ms)

abbrev pub auto : Text
auto = codes "auto"

module _ (locale : Locale) where
  open locale use {lower, before}

  unfoldable pub matches : Text → Text → Bool
  matches needle model = is_empty needle || includes needle (lower model)

  -- the comparator of `sort`, less than or equal to zero
  unfoldable pub picker_order : Text → Text → Bool
  picker_order a b = if same a auto then true else if same b auto then false else before a b

  unfoldable pub filter_models : List Text → Text → List Text
  unfolding distinct matches picker_order
  filter_models models query =
      let needle = lower (trim query) in
      sort picker_order (filter (matches needle) (distinct models))
