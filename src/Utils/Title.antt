-- ===== src/Utils/Title.antt =====
-- Chat titles of `deriveTitle`.
use llm_router_ui.Prelude.{
  ℕ, ◌≡◌, ◌≢◌, ◌≤◌, ◌&&◌, zero, suc, refl, Bool, true, false, [], ◌∷◌, ◌++◌, length, take,
  length-append, length-take-le, ltb, All, Bool-cases, inl, inr, arith, if◌then◌else◌,
}
use llm_router_ui.Text.{Text, codes, is_space, is_empty, trim, drop_start, drop_end}
use llm_router_ui.Utils.{collapse_from, shorten, derive_title}

-- every white space is a plain blank
abbrev pub IsPlain : Text → Type 0
IsPlain s = All (λ c. is_space c ≡ true → c ≡ 32) s

if_IsPlain : (b : Bool) (s : Text) → IsPlain s → IsPlain (if b then s else 32 ∷ s)
if_IsPlain true s h = h
if_IsPlain false s h = ((λ _. refl), h)

append-ne-nil : (s : Text) → s ++ codes "…" ≢ []
append-ne-nil [] = λ e. cc
append-ne-nil (c ∷ s) = λ e. cc

nonempty : (s : Text) → is_empty s ≡ false → s ≢ []
unfolding is_empty
nonempty [] h = λ e. cc
nonempty (c ∷ s) h = λ e. cc

collapse_from-IsPlain : (b : Bool) (s : Text) → IsPlain (collapse_from b s)
unfolding collapse_from
collapse_from-IsPlain b [] = tt
collapse_from-IsPlain b (c ∷ s) = elim (Bool-cases (is_space c)) [
  | inl e ↦ rw e (if_IsPlain b _ (collapse_from-IsPlain true s))
  | inr e ↦ rw e ((λ h. cc), collapse_from-IsPlain false s)
]

drop_start-IsPlain : (p : ℕ → Bool) (s : Text) → IsPlain s → IsPlain (drop_start p s)
unfolding drop_start
drop_start-IsPlain p [] h = tt
drop_start-IsPlain p (c ∷ s) h = elim (Bool-cases (p c)) [
  | inl e ↦ rw e (drop_start-IsPlain p s h.1)
  | inr e ↦ rw e h
]

drop_end-IsPlain : (p : ℕ → Bool) (s : Text) → IsPlain s → IsPlain (drop_end p s)
unfolding drop_end
drop_end-IsPlain p [] h = tt
drop_end-IsPlain p (c ∷ s) h = elim (Bool-cases (is_empty (drop_end p s) && p c)) [
  | inl e ↦ rw e tt
  | inr e ↦ rw e (h.0, drop_end-IsPlain p s h.1)
]

take-IsPlain : (n : ℕ) (s t : Text) → IsPlain s → IsPlain t → IsPlain (take n s ++ t)
take-IsPlain zero s t h k = k
take-IsPlain (suc n) [] t h k = k
take-IsPlain (suc n) (c ∷ s) t h k = (h.0, take-IsPlain n s t h.1 k)

abbrev Title : Text → Type 0
Title t = (t ≢ []) × (length t ≤ 43) × IsPlain t

ellipsis-IsPlain : IsPlain (codes "…")
unfolding is_space
ellipsis-IsPlain = ((λ h. cc), tt)

new_chat-Title : Title (codes "New chat")
unfolding is_space
new_chat-Title = ((λ e. cc), omega arith, grind arith)

long-Title : (n : ℕ) (s : Text) → n ≤ 42 → IsPlain s → Title (take n s ++ codes "…")
long-Title n s h k = (
  append-ne-nil (take n s),
  omega (arith, length-append (take n s) (codes "…"), length-take-le n s),
  take-IsPlain n s (codes "…") k ellipsis-IsPlain,
)

shorten-Title : (s : Text) → IsPlain s → Title (shorten s)
unfolding shorten
shorten-Title s h = elim (Bool-cases (is_empty s)) [
  | inl e ↦ rw (e, shorten) new_chat-Title
  | inr e ↦ elim (Bool-cases (ltb 42 (length s))) [
    | inl long ↦ rw (e, long, shorten) (long-Title 42 s (omega arith) h)
    | inr short ↦ rw (e, short, shorten) (nonempty s e, ground arith, h)
  ]
]

-- A title is one line of one to 43 characters: not empty, at most 42 characters and an ellipsis,
-- and free of line breaks, tabs and every other white space than the blank.
pub derive_title_bounds :
    (text : Text)
    → (derive_title text ≢ []) × (length (derive_title text) ≤ 43) × IsPlain (derive_title text)
unfolding derive_title trim
derive_title_bounds text =
    shorten-Title _ (
      drop_end-IsPlain is_space _
        (drop_start-IsPlain is_space _ (collapse_from-IsPlain false text)))
