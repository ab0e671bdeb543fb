-- ===== src/Idb/Assoc.antt =====
-- An object store kept as an association list: the laws of `ObjectStore` can be met.
use llm_router_ui.Prelude.{
  ◌≡◌, refl, ◌↔◌, Option, none, some, List, [], ◌∷◌, if◌then◌else◌, In, false, arith,
}
use llm_router_ui.Text.{Text, same}
use llm_router_ui.Text.Laws.{same_iff}
use llm_router_ui.Idb.{ObjectStore}

module _ {V : Type 0} where
  unfoldable pub lookup : List (Text × V) → Text → Option V
  lookup [] j = none
  lookup ((k, v) ∷ t) j = if same k j then some v else lookup t j

  unfoldable pub without : List (Text × V) → Text → List (Text × V)
  without [] k = []
  without ((j, v) ∷ t) k = let rest = without t k in if same k j then rest else (j, v) ∷ rest

  -- each key once, with the newest record
  unfoldable pub newest : List (Text × V) → List (Text × V)
  unfolding without
  newest [] = []
  newest ((k, v) ∷ t) = (k, v) ∷ without (newest t) k

  pub lookup-without :
      (t : List (Text × V)) (k j : Text)
      → lookup (without t k) j ≡ (if same k j then none else lookup t j)
  unfolding lookup without
  lookup-without [] k j = ground arith
  lookup-without ((i, v) ∷ t) k j =
      ground (arith, lookup-without t k j, same_iff k i, same_iff i j, same_iff k j)

  In-without :
      (t : List (Text × V)) (k j : Text) (v : V)
      → In (j, v) (without t k) ↔ In (j, v) t × (same k j ≡ false)
  unfolding without
  In-without [] k j v = ground arith
  In-without ((i, w) ∷ t) k j v = ground (arith, In-without t k j v, same_iff k i, same_iff k j)

  pub newest_iff :
      (t : List (Text × V)) (j : Text) (v : V) → In (j, v) (newest t) ↔ (lookup t j ≡ some v)
  unfolding newest lookup
  newest_iff [] j v = ground arith
  newest_iff ((k, w) ∷ t) j v =
      ground (arith, newest_iff t j v, In-without (newest t) k j v, same_iff k j)

  pub lookup-cons :
      (t : List (Text × V)) (k j : Text) (v : V)
      → lookup ((k, v) ∷ t) j ≡ (if same k j then some v else lookup t j)
  unfolding lookup
  lookup-cons t k j v = refl

  pub lookup-nil : (k : Text) → lookup [] k ≡ none
  unfolding lookup
  lookup-nil k = refl

abbrev pub assoc_store : ObjectStore
assoc_store = record {
  Table = λ V. List (Text × V);
  empty = [];
  get = lookup;
  put = λ t k v. (k, v) ∷ t;
  delete = without;
  clear = λ t. [];
  entries = newest;
  get-put = lookup-cons;
  get-delete = lookup-without;
  get-clear = λ t. lookup-nil;
  get-empty = lookup-nil;
  entries_iff = newest_iff;
}
