-- ===== src/Api/Split.antt =====
-- `split` at blank lines and at newlines, as the reader of frontend/src/lib/api.ts uses it.
use llm_router_ui.Prelude.{
  ℕ, ◌≡◌, refl, sym, ap, subst, Bool, true, false, ◌&&◌, List, [], ◌∷◌, ◌++◌, ◌==◌, if◌then◌else◌,
  Bool-cases, inl, inr,
}
use mathlib.Core.List.{append-nil, tail-eq_of_cons-eq}
use llm_router_ui.Text.{Text}

abbrev pub is_newline : ℕ → Bool
is_newline c = c == 10

-- a character in front of the first part of a split
unfoldable pub prepend : ℕ → List Text × Text → List Text × Text
prepend c ([], last) = ([], c ∷ last)
prepend c (part ∷ parts, last) = ((c ∷ part) ∷ parts, last)

-- `buffer.split('\n\n')`, with `pop()`: the parts but the last, and the last
unfoldable pub split_blank : Text → List Text × Text
unfolding prepend
split_blank [] = ([], [])
split_blank (c ∷ []) = ([], c ∷ [])
split_blank (c ∷ d ∷ s) =
    let cut : List Text × Text = ([] ∷ (split_blank s).0, (split_blank s).1) in
    let longer = prepend c (split_blank (d ∷ s)) in
    if is_newline c && is_newline d then cut else longer

abbrev push_front : ℕ → List Text → List Text
push_front c [] = (c ∷ []) ∷ []
push_front c (l ∷ ls) = (c ∷ l) ∷ ls

-- `frame.split('\n')`
unfoldable pub lines : Text → List Text
lines [] = [] ∷ []
lines (c ∷ s) = let rest = lines s in if is_newline c then [] ∷ rest else push_front c rest

-- parts in front of a split
abbrev pub behind : List Text → List Text × Text → List Text × Text
behind parts (more, last) = (parts ++ more, last)

cons-ne-nil : {A : Type 0} {x : A} {xs : List A} → ¬ (x ∷ xs ≡ [])
cons-ne-nil e = cc

module _ (c d : ℕ) (s : Text) where
  split_blank-cut :
      (is_newline c && is_newline d) ≡ true
      → split_blank (c ∷ d ∷ s) ≡ ([] ∷ (split_blank s).0, (split_blank s).1)
  unfolding split_blank
  split_blank-cut e = rw e

  pub split_blank-longer :
      (is_newline c && is_newline d) ≡ false
      → split_blank (c ∷ d ∷ s) ≡ prepend c (split_blank (d ∷ s))
  unfolding split_blank
  split_blank-longer e = rw e

prepend-none :
    (c : ℕ) (t : Text) (x : List Text × Text)
    → (x.0 ≡ [] → x.1 ≡ t)
    → (prepend c x).0 ≡ []
    → (prepend c x).1 ≡ c ∷ t
unfolding prepend
prepend-none c t ([], r) h e = ap (◌∷◌ c) (h refl)
prepend-none c t (f ∷ fs, r) h e = cc

-- without a cut the last part is the whole text
split_blank-none : (s : Text) → (split_blank s).0 ≡ [] → (split_blank s).1 ≡ s
split_blank-none [] h = unfold split_blank in refl
split_blank-none (c ∷ []) h = unfold split_blank in refl
split_blank-none (c ∷ d ∷ s) h = elim (Bool-cases (is_newline c && is_newline d)) [
  | inl e ↦ absurd (cons-ne-nil (rw (split_blank-cut c d s e) at h))
  | inr e ↦ rw (split_blank-longer c d s e) (
      prepend-none c (d ∷ s) (split_blank (d ∷ s)) (split_blank-none (d ∷ s))
        (rw (split_blank-longer c d s e) at h))
]

prepend-behind :
    (c d : ℕ) (s b : Text) (x : List Text × Text)
    → (is_newline c && is_newline d) ≡ false
    → (x.0 ≡ [] → x.1 ≡ d ∷ s)
    → prepend c (behind x.0 (split_blank (x.1 ++ b)))
      ≡ behind (prepend c x).0 (split_blank ((prepend c x).1 ++ b))
unfolding prepend
prepend-behind c d s b ([], r) e h = rw (h refl, split_blank-longer c d (s ++ b) e)
prepend-behind c d s b (f ∷ fs, r) e h = refl

-- Splitting a text that comes in two pieces: the parts of the first piece, then those of what was
-- left of it followed by the second.
pub split_blank-append :
    (a b : Text)
    → split_blank (a ++ b) ≡ behind (split_blank a).0 (split_blank ((split_blank a).1 ++ b))
split_blank-append [] b = unfold split_blank in refl
split_blank-append (c ∷ []) b = unfold split_blank in refl
split_blank-append (c ∷ d ∷ s) b = elim (Bool-cases (is_newline c && is_newline d)) [
  | inl e ↦
      rw (split_blank-cut c d s e, split_blank-cut c d (s ++ b) e)
        (ap (λ (x : List Text × Text). ([] ∷ x.0, x.1)) (split_blank-append s b))
  | inr e ↦
      rw
        (
          split_blank-longer c d s e,
          split_blank-longer c d (s ++ b) e,
          split_blank-append (d ∷ s) b,
        )
        (prepend-behind c d s b (split_blank (d ∷ s)) e (split_blank-none (d ∷ s)))
]

append-eq-nil : {A : Type 0} (xs ys : List A) → xs ≡ xs ++ ys → ys ≡ []
append-eq-nil [] ys e = sym e
append-eq-nil (x ∷ xs) ys e = append-eq-nil xs ys (tail-eq_of_cons-eq e)

-- What is left of a split holds no blank line.
pub split_blank-rest : (a : Text) → (split_blank (split_blank a).1).0 ≡ []
split_blank-rest a =
    let again : split_blank a ≡ behind (split_blank a).0 (split_blank (split_blank a).1) =
      subst (λ t. split_blank a ≡ behind (split_blank a).0 (split_blank t))
        (append-nil (split_blank a).1)
        (subst
          (λ t. split_blank t ≡ behind (split_blank a).0 (split_blank ((split_blank a).1 ++ [])))
          (append-nil a) (split_blank-append a [])) in
    append-eq-nil (split_blank a).0 (split_blank (split_blank a).1).0
      (ap (λ (x : List Text × Text). x.0) again)
