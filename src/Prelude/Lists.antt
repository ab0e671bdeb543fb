-- ===== src/Prelude/Lists.antt =====
-- The array methods that the code calls (`find`, `filter`, `includes`, `slice`) with Boolean
-- tests and native lengths, and predicates on lists.
use Prim.Native.Nat.{ℕ, zero, suc, ◌+◌, ◌≤◌}
use mathlib.Core.Path.{◌≡◌, refl, ap, sym}
use mathlib.Core.Logic.{◌⊎◌, inl, inr, ◌↔◌}
use mathlib.Core.Bool.{Bool, true, false}
use mathlib.Core.Option.{Option, none, some}
use mathlib.Core.List.{List, [], ◌∷◌, ◌++◌, map, reverse, reverse_aux}
use native.Mathlib.Omega.{arith}
use llm_router_ui.Prelude.Tests.{if◌then◌else◌}

module _ {ℓ} {A : Type ℓ} where
  abbrev pub length : List A → ℕ
  length [] = 0
  length (x ∷ xs) = suc (length xs)

  abbrev pub take : ℕ → List A → List A
  take zero xs = []
  take (suc n) [] = []
  take (suc n) (x ∷ xs) = x ∷ take n xs

  abbrev pub drop : ℕ → List A → List A
  drop zero xs = xs
  drop (suc n) [] = []
  drop (suc n) (x ∷ xs) = drop n xs

  abbrev pub head? : List A → Option A
  head? [] = none
  head? (x ∷ xs) = some x

  abbrev pub last? : List A → Option A
  last? [] = none
  last? (x ∷ []) = some x
  last? (x ∷ y ∷ ys) = last? (y ∷ ys)

  unfoldable pub filter : (A → Bool) → List A → List A
  filter p [] = []
  filter p (x ∷ xs) = let rest = filter p xs in if p x then x ∷ rest else rest

  unfoldable pub find : (A → Bool) → List A → Option A
  find p [] = none
  find p (x ∷ xs) = if p x then some x else find p xs

  abbrev pub any : (A → Bool) → List A → Bool
  any p [] = false
  any p (x ∷ xs) = if p x then true else any p xs

  pub length-take-le : (n : ℕ) (xs : List A) → length (take n xs) ≤ n
  length-take-le zero xs = omega arith
  length-take-le (suc n) [] = omega arith
  length-take-le (suc n) (x ∷ xs) = omega (arith, length-take-le n xs)

  pub length-append : (xs ys : List A) → length (xs ++ ys) ≡ length xs + length ys
  length-append [] ys = omega arith
  length-append (x ∷ xs) ys = omega (arith, length-append xs ys)

  pub filter-append :
      (p : A → Bool) (xs ys : List A) → filter p (xs ++ ys) ≡ filter p xs ++ filter p ys
  unfolding filter
  filter-append p [] ys = refl
  filter-append p (x ∷ xs) ys = ground (arith, filter-append p xs ys)

module _ {A : Type 0} where
  -- membership, by recursion on the list
  abbrev pub In : A → List A → Type 0
  In a [] = ⊥
  In a (x ∷ xs) = (a ≡ x) ⊎ In a xs

  pub In-append_left : (a : A) (xs ys : List A) → In a xs → In a (xs ++ ys)
  In-append_left a [] ys m = absurd m
  In-append_left a (x ∷ xs) ys (inl e) = inl e
  In-append_left a (x ∷ xs) ys (inr m) = inr (In-append_left a xs ys m)

  pub In-append_right : (a : A) (xs ys : List A) → In a ys → In a (xs ++ ys)
  In-append_right a [] ys m = m
  In-append_right a (x ∷ xs) ys m = inr (In-append_right a xs ys m)

  pub In-append_cases : (a : A) (xs ys : List A) → In a (xs ++ ys) → In a xs ⊎ In a ys
  In-append_cases a [] ys m = inr m
  In-append_cases a (x ∷ xs) ys (inl e) = inl (inl e)
  In-append_cases a (x ∷ xs) ys (inr m) = ground (arith, In-append_cases a xs ys m)

  pub In-of_filter :
      (a : A) (p : A → Bool) (xs : List A) → In a (filter p xs) → In a xs × (p a ≡ true)
  unfolding filter
  In-of_filter a p [] m = absurd m
  In-of_filter a p (x ∷ xs) m = ground (arith, In-of_filter a p xs)

  pub In-filter : (a : A) (p : A → Bool) (xs : List A) → In a xs → p a ≡ true → In a (filter p xs)
  unfolding filter
  In-filter a p [] m h = absurd m
  In-filter a p (x ∷ xs) m h = ground (arith, In-filter a p xs)

  pub find-eq-some :
      (p : A → Bool) (xs : List A) (a : A) → find p xs ≡ some a → In a xs × (p a ≡ true)
  unfolding find
  find-eq-some p [] a e = cc
  find-eq-some p (x ∷ xs) a e = ground (arith, find-eq-some p xs a)

  pub find-eq-none : (p : A → Bool) (xs : List A) (a : A) → find p xs ≡ none → In a xs → p a ≡ false
  unfolding find
  find-eq-none p [] a e m = absurd m
  find-eq-none p (x ∷ xs) a e m = ground (arith, find-eq-none p xs a)

  pub find_of_none : (p : A → Bool) (xs : List A) → ((a : A) → p a ≡ false) → find p xs ≡ none
  unfolding find
  find_of_none p [] h = refl
  find_of_none p (x ∷ xs) h = ground (arith, h x, find_of_none p xs h)

  pub In-reverse_aux : (a : A) (xs ys : List A) → In a xs ⊎ In a ys → In a (reverse_aux xs ys)
  In-reverse_aux a [] ys m = ground arith
  In-reverse_aux a (x ∷ xs) ys m = In-reverse_aux a xs (x ∷ ys) (ground arith)

  pub In-of_reverse_aux : (a : A) (xs ys : List A) → In a (reverse_aux xs ys) → In a xs ⊎ In a ys
  In-of_reverse_aux a [] ys m = inr m
  In-of_reverse_aux a (x ∷ xs) ys m = ground (arith, In-of_reverse_aux a xs (x ∷ ys) m)

  pub In-reverse_iff : (a : A) (xs : List A) → In a (reverse xs) ↔ In a xs
  In-reverse_iff a xs =
      (λ h. ground (arith, In-of_reverse_aux a xs [] h), λ h. In-reverse_aux a xs [] (inl h))

module _ {A B : Type 0} (f : A → B) where
  pub In-map : (xs : List A) (a : A) → In a xs → In (f a) (map f xs)
  In-map [] a m = absurd m
  In-map (x ∷ xs) a (inl e) = inl (ap f e)
  In-map (x ∷ xs) a (inr m) = inr (In-map xs a m)

  pub In-of_map : (xs : List A) (b : B) → In b (map f xs) → (a : A) × In a xs × (f a ≡ b)
  In-of_map [] b m = absurd m
  In-of_map (x ∷ xs) b (inl e) = (x, inl refl, sym e)
  In-of_map (x ∷ xs) b (inr m) = let (a, k, e) = In-of_map xs b m in (a, inr k, e)

module _ {ℓ κ} {A : Type ℓ} (P : A → Type κ) where
  abbrev pub All : List A → Type κ
  All [] = Unit
  All (x ∷ xs) = P x × All xs

module _ {A : Type 0} (P : A → Type 0) where
  pub All-of_In : (xs : List A) → ((a : A) → In a xs → P a) → All P xs
  All-of_In [] h = tt
  All-of_In (x ∷ xs) h = (h x (inl refl), All-of_In xs (λ a m. h a (inr m)))

  pub All-filter : (p : A → Bool) (xs : List A) → All P xs → All P (filter p xs)
  unfolding filter
  All-filter p [] h = tt
  All-filter p (x ∷ xs) h = ground (arith, All-filter p xs)
