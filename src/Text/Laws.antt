-- ===== src/Text/Laws.antt =====
-- Laws of the string methods that the components' proofs share.
use llm_router_ui.Prelude.{
  ℕ, ◌≡◌, refl, ◌↔◌, Bool, true, false, ◌&&◌, List, [], ◌∷◌, ◌≤◌, arith, length, Bool-cases, inl,
  inr, In, map,
}
use llm_router_ui.Text.{Text, same, is_empty, is_space, drop_start, drop_end, trim, contains}

pub same→eq : (s t : Text) → same s t ≡ true → s ≡ t
unfolding same
same→eq [] [] h = refl
same→eq [] (b ∷ t) h = cc
same→eq (a ∷ s) [] h = cc
same→eq (a ∷ s) (b ∷ t) h = ground (arith, same→eq s t)

pub same_refl : (s : Text) → same s s ≡ true
unfolding same
same_refl [] = refl
same_refl (a ∷ s) = ground (arith, same_refl s)

-- `===` decides equality.
pub same_iff : (s t : Text) → (same s t ≡ true) ↔ (s ≡ t)
same_iff s t = (same→eq s t, λ e. ground (arith, same_refl s))

pub same_comm : (s t : Text) → same s t ≡ same t s
same_comm s t = ground (arith, same_iff s t, same_iff t s)

-- no trailing character satisfies `p`
abbrev pub EndsOff : (ℕ → Bool) → Text → Type 0
EndsOff p [] = Unit
EndsOff p (c ∷ []) = p c ≡ false
EndsOff p (c ∷ d ∷ s) = EndsOff p (d ∷ s)

abbrev pub StartsOff : (ℕ → Bool) → Text → Type 0
StartsOff p [] = Unit
StartsOff p (c ∷ s) = p c ≡ false

module _ (p : ℕ → Bool) where
  EndsOff-cons : (c : ℕ) (s : Text) → EndsOff p s → (is_empty s && p c) ≡ false → EndsOff p (c ∷ s)
  unfolding is_empty
  EndsOff-cons c [] h e = e
  EndsOff-cons c (d ∷ s) h e = h

  pub drop_end-EndsOff : (s : Text) → EndsOff p (drop_end p s)
  unfolding drop_end
  drop_end-EndsOff [] = tt
  drop_end-EndsOff (c ∷ s) = elim (Bool-cases (is_empty (drop_end p s) && p c)) [
    | inl e ↦ rw e tt
    | inr e ↦ rw e (EndsOff-cons c (drop_end p s) (drop_end-EndsOff s) e)
  ]

  pub drop_end_of_EndsOff : (s : Text) → EndsOff p s → drop_end p s ≡ s
  unfolding drop_end is_empty
  drop_end_of_EndsOff [] h = refl
  drop_end_of_EndsOff (c ∷ []) h = rw h
  drop_end_of_EndsOff (c ∷ d ∷ s) h = rw (drop_end_of_EndsOff (d ∷ s) h)

  pub drop_start-StartsOff : (s : Text) → StartsOff p (drop_start p s)
  unfolding drop_start
  drop_start-StartsOff [] = tt
  drop_start-StartsOff (c ∷ s) = elim (Bool-cases (p c)) [
    | inl e ↦ rw e (drop_start-StartsOff s)
    | inr e ↦ rw e e
  ]

  pub drop_start_of_StartsOff : (s : Text) → StartsOff p s → drop_start p s ≡ s
  unfolding drop_start
  drop_start_of_StartsOff [] h = refl
  drop_start_of_StartsOff (c ∷ s) h = rw h

  pub drop_end-StartsOff : (s : Text) → StartsOff p s → StartsOff p (drop_end p s)
  unfolding drop_end is_empty
  drop_end-StartsOff [] h = tt
  drop_end-StartsOff (c ∷ s) h = elim (Bool-cases (is_empty (drop_end p s) && p c)) [
    | inl e ↦ rw e tt
    | inr e ↦ rw e h
  ]

  pub length-drop_end-le : (s : Text) → length (drop_end p s) ≤ length s
  unfolding drop_end is_empty
  length-drop_end-le [] = omega arith
  length-drop_end-le (c ∷ s) = ground (arith, length-drop_end-le s)

pub trim-StartsOff : (s : Text) → StartsOff is_space (trim s)
unfolding trim
trim-StartsOff s =
    drop_end-StartsOff is_space (drop_start is_space s) (drop_start-StartsOff is_space s)

pub trim-EndsOff : (s : Text) → EndsOff is_space (trim s)
unfolding trim
trim-EndsOff s = drop_end-EndsOff is_space (drop_start is_space s)

-- A text that neither begins nor ends with a space is its own `trim`.
pub trim_of_off : (s : Text) → StartsOff is_space s → EndsOff is_space s → trim s ≡ s
unfolding trim
trim_of_off s hs he = rw (drop_start_of_StartsOff is_space s hs, drop_end_of_EndsOff is_space s he)

pub trim_idem : (s : Text) → trim (trim s) ≡ trim s
trim_idem s = trim_of_off (trim s) (trim-StartsOff s) (trim-EndsOff s)

-- membership of an id, by `===`
pub contains-witness :
    {A : Type 0} (f : A → Text) (k : Text) (xs : List A)
    → contains k (map f xs) ≡ true
    → (x : A) × In x xs × (f x ≡ k)
unfolding contains
contains-witness f k [] h = cc
contains-witness f k (x ∷ xs) h = elim (Bool-cases (same (f x) k)) [
  | inl e ↦ (x, inl refl, same→eq (f x) k e)
  | inr e ↦ let (y, m, q) = contains-witness f k xs (ground arith) in (y, inr m, q)
]

pub contains-In :
    {A : Type 0} (f : A → Text) (xs : List A) (x : A) → In x xs → contains (f x) (map f xs) ≡ true
unfolding contains
contains-In f [] x m = absurd m
contains-In f (y ∷ xs) x (inl e) = rw (e, same_refl (f y)) refl
contains-In f (y ∷ xs) x (inr m) = ground (arith, contains-In f xs x m)

EndsOff-tail : (p : ℕ → Bool) (c : ℕ) (s : Text) → EndsOff p (c ∷ s) → EndsOff p s
EndsOff-tail p c [] h = tt
EndsOff-tail p c (d ∷ s) h = h

pub drop_start-EndsOff : (p q : ℕ → Bool) (s : Text) → EndsOff p s → EndsOff p (drop_start q s)
unfolding drop_start
drop_start-EndsOff p q [] h = tt
drop_start-EndsOff p q (c ∷ s) h = elim (Bool-cases (q c)) [
  | inl e ↦ rw e (drop_start-EndsOff p q s (EndsOff-tail p c s h))
  | inr e ↦ rw e h
]
