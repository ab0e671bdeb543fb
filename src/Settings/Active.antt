-- ===== src/Settings/Active.antt =====
-- The active provider of the settings.
use llm_router_ui.Prelude.{
  ◌≡◌, ◌≢◌, ◌↔◌, ◌⊎◌, refl, sym, ap, subst, ◌∙◌, inl, inr, Bool, true, false, ◌++◌, find,
  Option-cases, not, Option, none, some, List, [], ◌∷◌, filter, head?, In, In-filter, In-map,
  In-append_left, In-append_right, find-eq-none, Bool-cases, arith,
}
use mathlib.Core.Option
use llm_router_ui.Text.{Text, same}
use llm_router_ui.Text.Laws.{same_iff}
use llm_router_ui.Types.{Provider, Settings, default_settings}
use llm_router_ui.Types.Patch.{ProviderPatch}
use llm_router_ui.Settings.{
  Draft, with_id, is_id, active_provider, with_provider, patch_provider, with_patched,
  without_provider,
}

-- the active id, if there is one, is that of a provider in the list
abbrev pub HasActive : Settings → Type 0
HasActive s =
    (s.active_provider_id ≡ none)
    ⊎ ((p : Provider) × In p s.providers × (s.active_provider_id ≡ some p.id))

is_id_iff : (o : Option Text) (id : Text) → (is_id o id ≡ true) ↔ (o ≡ some id)
is_id_iff none id = ground arith
is_id_iff (some a) id = ground (arith, same_iff a id)

module _ {A : Type 0} (test : A → Bool) where
  find-none : (xs : List A) → ((x : A) → In x xs → test x ≡ false) → find test xs ≡ none
  unfolding find
  find-none [] h = refl
  find-none (x ∷ xs) h = rw (h x (inl refl)) (find-none xs (λ y m. h y (inr m)))

  -- what is found is the first that passes the test
  abbrev IsFirst : List A → A → Type 0
  IsFirst xs x =
      (before : List A) × (after : List A) × (xs ≡ before ++ x ∷ after)
      × (test x ≡ true)
      × ((y : A) → In y before → test y ≡ false)

  first_fails :
      {y : A} (before : List A)
      → test y ≡ false
      → ((z : A) → In z before → test z ≡ false)
      → (z : A) → In z (y ∷ before)
      → test z ≡ false
  first_fails before fails others z (inl e) = ap test e ∙ fails
  first_fails before fails others z (inr m) = others z m

  find-IsFirst : (xs : List A) (x : A) → find test xs ≡ some x → IsFirst xs x
  unfolding find
  find-IsFirst [] x e = absurd (cc)
  find-IsFirst (y ∷ ys) x e = elim (Bool-cases (test y)) [
    | inl passes ↦
        let same_one : y ≡ x = ground arith in
        (
          [],
          ys,
          ap (λ z. z ∷ ys) same_one,
          subst (λ z. test z ≡ true) same_one passes,
          λ z m. elim m [ ],
        )
    | inr fails ↦
        let (before, after, split, passes, others) = find-IsFirst ys x (ground arith) in
        (
          y ∷ before,
          after,
          ap (λ l. y ∷ l) split,
          passes,
          λ z m. first_fails before fails others z m,
        )
  ]

abbrev is_active : Settings → Provider → Bool
is_active s p = is_id s.active_provider_id p.id

-- `activeProvider` answers the first provider of the list that has the active id. It answers null
-- exactly when no id is active or the active id is that of no provider in the list.
pub active_provider_exact :
    (s : Settings)
    → ((p : Provider)
        → active_provider s ≡ some p
        → (before : List Provider) × (after : List Provider) × (s.providers ≡ before ++ p ∷ after)
          × (s.active_provider_id ≡ some p.id)
          × ((q : Provider) → In q before → s.active_provider_id ≢ some q.id))
      × ((active_provider s ≡ none) ↔ (
          (s.active_provider_id ≡ none)
          ⊎ ((id : Text) × (s.active_provider_id ≡ some id)
              × ((q : Provider) → In q s.providers → q.id ≢ id))))
unfolding active_provider
active_provider_exact s = (
  λ p e.
      let (before, after, split, active, others) = find-IsFirst (is_active s) s.providers p e in
      (
        before,
        after,
        split,
        (is_id_iff s.active_provider_id p.id).0 active,
        λ q m f. cc (others q m, (is_id_iff s.active_provider_id q.id).1 f),
      ),
  (
    λ e. elim (Option-cases s.active_provider_id) [
      | inl f ↦ inl f
      | inr (id, f) ↦ inr (
        id,
        f,
        λ q m g. cc (
          find-eq-none _ s.providers q e m,
          (is_id_iff s.active_provider_id q.id).1 (f ∙ ap some (sym g)),
        ),
      )
    ],
    λ h. find-none (is_active s) s.providers (λ q m. elim h [
      | inl f ↦ rw f
      | inr (id, f, unlisted) ↦ elim (Bool-cases (is_id s.active_provider_id q.id)) [
        | inl g ↦ absurd (unlisted q m cc (f, (is_id_iff s.active_provider_id q.id).0 g))
        | inr g ↦ g
      ]
    ]),
  ),
)

pub default-HasActive : HasActive default_settings
default-HasActive = inr (_, inl refl, refl)

pub with_provider-HasActive :
    (s : Settings) (d : Draft) (id : Text) → HasActive s → HasActive (with_provider s d id)
unfolding with_provider
with_provider-HasActive s d id (inl e) =
    inr (with_id d id, In-append_right _ s.providers _ (inl refl), ground (arith))
with_provider-HasActive s d id (inr (p, m, e)) =
    inr (p, In-append_left p s.providers _ m, ground arith)

-- A provider that is patched keeps its id if the patch has none.
patch_provider-id :
    (id : Text) (patch : ProviderPatch) (p : Provider)
    → patch.id ≡ none
    → (patch_provider id patch p).id ≡ p.id
unfolding patch_provider
patch_provider-id id patch p h = ground arith

pub with_patched-HasActive :
    (s : Settings) (id : Text) (patch : ProviderPatch)
    → patch.id ≡ none
    → HasActive s
    → HasActive (with_patched s id patch)
unfolding with_patched
with_patched-HasActive s id patch h (inl e) = inl e
with_patched-HasActive s id patch h (inr (p, m, e)) = inr (
  patch_provider id patch p,
  In-map _ s.providers p m,
  e ∙ ap some (sym (patch_provider-id id patch p h)),
)

module _ (s : Settings) (id : Text) where
  abbrev kept : List Provider
  kept = filter (λ p. not (same p.id id)) s.providers

  fallback-HasActive :
      (ps : List Provider)
      → (Option.map (λ (p : Provider). p.id) (head? ps) ≡ none)
        ⊎ ((p : Provider) × In p ps × (Option.map (λ (p : Provider). p.id) (head? ps) ≡ some p.id))
  fallback-HasActive [] = inl refl
  fallback-HasActive (p ∷ ps) = inr (p, inl refl, refl)

  kept-HasActive :
      HasActive s
      → is_id s.active_provider_id id ≡ false
      → (s.active_provider_id ≡ none)
        ⊎ ((p : Provider) × In p kept × (s.active_provider_id ≡ some p.id))
  kept-HasActive (inl e) h = inl e
  kept-HasActive (inr (p, m, e)) h =
      inr (p, In-filter p _ s.providers m (ground (arith, is_id_iff (some p.id) id)), e)

  pub without_provider-HasActive : HasActive s → HasActive (without_provider s id)
  unfolding without_provider
  without_provider-HasActive h = elim (Bool-cases (is_id s.active_provider_id id)) [
    | inl e ↦ rw e (fallback-HasActive kept)
    | inr e ↦ rw e (kept-HasActive h e)
  ]
