-- ===== src/Models/Tests.antt =====
-- The model picker at the lists of frontend/tests/models.test.ts, over a locale that orders by the
-- first character.
use Prim.Native.Nat.{◌+◌}
use llm_router_ui.Prelude.{
  ℕ, ◌≡◌, ◌↔◌, refl, true, ◌&&◌, List, [], ◌∷◌, leb, In, map, if◌then◌else◌, filter, arith,
}
use llm_router_ui.Prelude.Sort.{IsSorted, sort}
use llm_router_ui.Text.{Text, codes, same, is_empty, trim, includes}
use llm_router_ui.Models.{Locale, matches, filter_models}
use llm_router_ui.Models.Laws.{AreDistinct, Precedes, filter_models_exact}

lower_code : ℕ → ℕ
lower_code c = if leb b'A' c && leb c b'Z' then c + 32 else c

abbrev first_code : Text → ℕ
first_code [] = 0
first_code (c ∷ s) = c

ascii : Locale
unfolding lower_code
ascii = record {
  lower = map lower_code;
  before = λ a b. leb (first_code a) (first_code b);
  before_total = λ a b h. ground arith;
  before_trans = λ a b c h k. ground arith;
}

abbrev listed : List Text
listed = codes "z-model" ∷ codes "auto" ∷ codes "a-model" ∷ codes "auto" ∷ []

auto_first : filter_models ascii listed [] ≡ codes "auto" ∷ codes "a-model" ∷ codes "z-model" ∷ []
unfolding filter_models ascii filter sort same is_empty trim includes
auto_first = refl

searched :
    filter_models ascii (codes "gpt-5.6-sol" ∷ codes "deepseek-v4-flash" ∷ []) (codes "GPT")
    ≡ codes "gpt-5.6-sol" ∷ []
unfolding filter_models ascii filter sort same is_empty trim includes
searched = refl

filter_models_exact_example :
    ((m : Text)
      → In m (filter_models ascii listed [])
        ↔ In m listed × (matches ascii (ascii.lower (trim [])) m ≡ true))
    × AreDistinct (filter_models ascii listed [])
    × IsSorted (Precedes ascii) (filter_models ascii listed [])
filter_models_exact_example = filter_models_exact ascii listed []
