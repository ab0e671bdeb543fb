-- ===== src/Prelude/Sort.antt =====
-- `Array.prototype.sort`: stable, so insertion by the comparator's order.
use mathlib.Core.Path.{◌≡◌}
use mathlib.Core.Logic.{◌⊎◌, inl, inr, ◌↔◌}
use mathlib.Core.Bool.{Bool, true, false}
use mathlib.Core.List.{List, [], ◌∷◌, reverse, reverse_aux}
use native.Mathlib.Omega.{arith}
use llm_router_ui.Prelude.Tests.{if◌then◌else◌, Bool-cases}
use llm_router_ui.Prelude.Lists.{In, All, filter, All-filter}

-- each element is related to all behind it
abbrev pub IsSorted : {A : Type 0} → (A → A → Type 0) → List A → Type 0
IsSorted R [] = Unit
IsSorted R (x ∷ xs) = All (R x) xs × IsSorted R xs

module _ {A : Type 0} (le : A → A → Bool) where
  -- `le a b` is `compare(a, b) <= 0`
  unfoldable pub insert : A → List A → List A
  insert x [] = x ∷ []
  insert x (y ∷ ys) = if le x y then x ∷ y ∷ ys else y ∷ insert x ys

  unfoldable pub sort : List A → List A
  unfolding insert
  sort [] = []
  sort (x ∷ xs) = insert x (sort xs)

  In-insert_iff : (a x : A) (xs : List A) → In a (insert x xs) ↔ (a ≡ x) ⊎ In a xs
  unfolding insert
  In-insert_iff a x [] = ground arith
  In-insert_iff a x (y ∷ ys) = ground (arith, In-insert_iff a x ys)

  -- Sorting keeps the elements.
  pub In-sort_iff : (a : A) (xs : List A) → In a (sort xs) ↔ In a xs
  unfolding sort
  In-sort_iff a [] = ground arith
  In-sort_iff a (x ∷ xs) = ground (arith, In-insert_iff a x (sort xs), In-sort_iff a xs)

  module _ (R : A → A → Type 0) (le→R : (a b : A) → le a b ≡ true → R a b)
      (not_le→R : (a b : A) → le a b ≡ false → R b a)
      (trans : (a b c : A) → R a b → R b c → R a c) where
    All-insert : (y x : A) (xs : List A) → R y x → All (R y) xs → All (R y) (insert x xs)
    unfolding insert
    All-insert y x [] r h = (r, tt)
    All-insert y x (z ∷ zs) r h = ground (arith, All-insert y x zs)

    All-trans : (x y : A) (ys : List A) → R x y → All (R y) ys → All (R x) ys
    All-trans x y [] r h = tt
    All-trans x y (z ∷ zs) r h = (trans x y z r h.0, All-trans x y zs r h.1)

    insert-IsSorted : (x : A) (xs : List A) → IsSorted R xs → IsSorted R (insert x xs)
    unfolding insert
    insert-IsSorted x [] h = (tt, tt)
    insert-IsSorted x (y ∷ ys) h = elim (Bool-cases (le x y)) [
      | inl e ↦ rw e ((le→R x y e, All-trans x y ys (le→R x y e) h.0), h)
      | inr e ↦ rw e (All-insert y x ys (not_le→R x y e) h.0, insert-IsSorted x ys h.1)
    ]

    -- A total and transitive comparison puts the elements in order.
    pub sort-IsSorted : (xs : List A) → IsSorted R (sort xs)
    unfolding sort
    sort-IsSorted [] = tt
    sort-IsSorted (x ∷ xs) = insert-IsSorted x (sort xs) (sort-IsSorted xs)

-- A symmetric relation between all elements, such as being different, survives sorting.
module _ {A : Type 0} (le : A → A → Bool) (R : A → A → Type 0)
    (symm : (a b : A) → R a b → R b a) where
  All-insert_symm : (y x : A) (xs : List A) → R y x → All (R y) xs → All (R y) (insert le x xs)
  unfolding insert
  All-insert_symm y x [] r h = (r, tt)
  All-insert_symm y x (z ∷ zs) r h = ground (arith, All-insert_symm y x zs)

  insert-pairwise :
      (x : A) (xs : List A) → All (R x) xs → IsSorted R xs → IsSorted R (insert le x xs)
  unfolding insert
  insert-pairwise x [] r h = (tt, tt)
  insert-pairwise x (y ∷ ys) r h = elim (Bool-cases (le x y)) [
    | inl e ↦ rw e (r, h)
    | inr e ↦ rw e (All-insert_symm y x ys (symm x y r.0) h.0, insert-pairwise x ys r.1 h.1)
  ]

  All-sort : (x : A) (xs : List A) → All (R x) xs → All (R x) (sort le xs)
  unfolding sort
  All-sort x [] r = tt
  All-sort x (y ∷ ys) r = All-insert_symm x y (sort le ys) r.0 (All-sort x ys r.1)

  pub sort-pairwise : (xs : List A) → IsSorted R xs → IsSorted R (sort le xs)
  unfolding sort
  sort-pairwise [] h = tt
  sort-pairwise (x ∷ xs) h =
      insert-pairwise x (sort le xs) (All-sort x xs h.0) (sort-pairwise xs h.1)

module _ {A : Type 0} (R : A → A → Type 0) where
  abbrev Flipped : A → A → Type 0
  Flipped a b = R b a

  All-before : (x : A) (xs ys : List A) → All (λ y. All (R y) (x ∷ xs)) ys → All (λ y. R y x) ys
  All-before x xs [] h = tt
  All-before x xs (y ∷ ys) h = (h.0.0, All-before x xs ys h.1)

  All-behind :
      (x : A) (xs ys : List A) → All (λ y. All (R y) (x ∷ xs)) ys → All (λ y. All (R y) xs) ys
  All-behind x xs [] h = tt
  All-behind x xs (y ∷ ys) h = (h.0.1, All-behind x xs ys h.1)

  IsSorted-reverse_aux :
      (xs ys : List A)
      → IsSorted R xs
      → IsSorted Flipped ys
      → All (λ y. All (R y) xs) ys
      → IsSorted Flipped (reverse_aux xs ys)
  IsSorted-reverse_aux [] ys h k m = k
  IsSorted-reverse_aux (x ∷ xs) ys h k m =
      IsSorted-reverse_aux xs (x ∷ ys) h.1 (All-before x xs ys m, k) (h.0, All-behind x xs ys m)

  -- Reversing turns the order round.
  pub IsSorted-reverse : (xs : List A) → IsSorted R xs → IsSorted (λ a b. R b a) (reverse xs)
  IsSorted-reverse xs h = IsSorted-reverse_aux xs [] h tt tt

  pub IsSorted-filter : (p : A → Bool) (xs : List A) → IsSorted R xs → IsSorted R (filter p xs)
  unfolding filter
  IsSorted-filter p [] h = tt
  IsSorted-filter p (x ∷ xs) h = elim (Bool-cases (p x)) [
    | inl e ↦ rw e (All-filter (R x) p xs h.0, IsSorted-filter p xs h.1)
    | inr e ↦ rw e (IsSorted-filter p xs h.1)
  ]
