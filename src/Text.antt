-- ===== src/Text.antt =====
-- JavaScript strings as lists of UTF-16 code units, with the built-in methods that
-- frontend/src calls: `===`, `trim`, `startsWith`, `slice`, `includes`, `replace` and `join`.
-- The literals of the code hold characters of the basic plane only, one code unit each.
pub mod Laws
pub mod Decimal
use Prim.Native.Char.{code}
use Prim.Native.String.{String}
use llm_router_ui.Prelude.{
  ℕ, Bool, true, false, ◌||◌, ◌&&◌, List, [], ◌∷◌, ◌++◌, leb, ◌==◌, if◌then◌else◌, any,
}

abbrev pub Text : Type 0
Text = List ℕ

-- a literal of the source
abbrev pub codes : String → Text
codes String.[] = []
codes (String.◌∷◌ c s) = code c ∷ codes s

unfoldable pub same : Text → Text → Bool
same [] [] = true
same (a ∷ s) (b ∷ t) = if a == b then same s t else false
same _ _ = false

unfoldable pub is_empty : Text → Bool
is_empty [] = true
is_empty (_ ∷ _) = false

-- the white space and line terminators of ECMAScript, which `trim` and `\s` share
unfoldable pub is_space : ℕ → Bool
is_space c =
    (leb 9 c && leb c 13)
    || c == 32
    || c == 0xa0
    || c == 0x1680
    || (leb 0x2000 c && leb c 0x200a)
    || c == 0x2028
    || c == 0x2029
    || c == 0x202f
    || c == 0x205f
    || c == 0x3000
    || c == 0xfeff

unfoldable pub drop_start : (ℕ → Bool) → Text → Text
drop_start p [] = []
drop_start p (c ∷ s) = if p c then drop_start p s else c ∷ s

unfoldable pub drop_end : (ℕ → Bool) → Text → Text
unfolding is_empty
drop_end p [] = []
drop_end p (c ∷ s) = let rest = drop_end p s in if is_empty rest && p c then [] else c ∷ rest

unfoldable pub trim : Text → Text
unfolding drop_start drop_end is_space
trim s = drop_end is_space (drop_start is_space s)

unfoldable pub starts_with : Text → Text → Bool
starts_with [] s = true
starts_with (p ∷ ps) [] = false
starts_with (p ∷ ps) (c ∷ s) = if p == c then starts_with ps s else false

-- `s.includes(needle)`
unfoldable pub includes : Text → Text → Bool
unfolding starts_with
includes needle [] = starts_with needle []
includes needle (c ∷ s) = if starts_with needle (c ∷ s) then true else includes needle s

-- `parts.join(' ')` and the like
unfoldable pub join : Text → List Text → Text
join sep [] = []
join sep (t ∷ []) = t
join sep (t ∷ u ∷ ts) = t ++ (sep ++ join sep (u ∷ ts))

-- is this id among those
unfoldable pub contains : Text → List Text → Bool
unfolding same
contains k [] = false
contains k (t ∷ ts) = if same t k then true else contains k ts
