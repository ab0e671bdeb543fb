-- ===== src/Utils.antt =====
-- frontend/src/lib/utils.ts: titles, date groups and class names. The clock and the locale are
-- arguments. The stores take the ids of `uid` as arguments.
pub mod Title
mod Tests
use llm_router_ui.Prelude.{
  ℕ, ◌+◌, ◌-◌, ◌*◌, Bool, true, false, Option, none, some, List, [], ◌∷◌, ◌++◌, leb, ltb, length,
  take, drop, if◌then◌else◌,
}
use llm_router_ui.Text.{Text, codes, is_space, is_empty, trim, join}

-- `replace(/\s+/g, ' ')`: a run of white space becomes one blank; the flag says whether the run
-- has begun
unfoldable pub collapse_from : Bool → Text → Text
collapse_from inside [] = []
collapse_from inside (c ∷ s) =
    let rest = collapse_from (is_space c) s in
    if is_space c then (if inside then rest else 32 ∷ rest) else c ∷ rest

unfoldable pub shorten : Text → Text
unfolding is_empty
shorten clean =
    if is_empty clean
    then codes "New chat"
    else if ltb 42 (length clean)
    then take 42 clean ++ codes "…"
    else clean

unfoldable pub derive_title : Text → Text
unfolding collapse_from trim shorten
derive_title text = shorten (trim (collapse_from false text))

abbrev pub day_ms : ℕ
day_ms = 86_400_000

-- `now` and its midnight in local time, and the name of a month, come from the platform
unfoldable pub group_by_date : (month_year : ℕ → Text) (start_of_today : ℕ) → ℕ → Text
group_by_date month_year start_of_today ts =
    if leb start_of_today ts
    then codes "Today"
    else if leb (start_of_today - day_ms) ts
    then codes "Yesterday"
    else if leb (start_of_today - day_ms * 7) ts
    then codes "Previous 7 days"
    else if leb (start_of_today - day_ms * 30) ts
    then codes "Previous 30 days"
    else month_year ts

-- the classes that are neither missing, `false` nor empty
unfoldable pub truthy_classes : List (Option Text) → List Text
unfolding is_empty
truthy_classes [] = []
truthy_classes (none ∷ cs) = truthy_classes cs
truthy_classes (some c ∷ cs) = let rest = truthy_classes cs in if is_empty c then rest else c ∷ rest

unfoldable pub cn : List (Option Text) → Text
unfolding truthy_classes join
cn classes = join (codes " ") (truthy_classes classes)

-- `random_uuid` is what `crypto.randomUUID` gives where there is one; the other two are the time and
-- a random number in base 36, the latter with its `0.`
unfoldable pub uid : (random_uuid : Option Text) (time random : Text) → Text
uid random_uuid time random = elim random_uuid [
  | some id ↦ id
  | none ↦ time ++ codes "-" ++ take 8 (drop 2 random)
]
