-- ===== src/Idb/Laws.antt =====
-- Batches of writes to an object store: a loop of `put` or of `delete` over a list.
use llm_router_ui.Prelude.{
  ◌≡◌, refl, Bool, Option, none, some, List, [], ◌∷◌, if◌then◌else◌, arith, Option-cases, inl, inr,
  true, false, map, In, Bool-cases, ◌∙◌, ap, ◌↔◌, In-map, In-of_map, Bool-ext, sym, subst, is_some,
  is_some-witness,
}
use llm_router_ui.Text.{Text, contains}
use llm_router_ui.Text.Laws.{same→eq, same_refl, contains-witness, contains-In}
use llm_router_ui.Idb.{ObjectStore}

-- a record that is kept unless it satisfies the test
abbrev pub unless : {A : Type 0} → (A → Bool) → Option A → Option A
unless p none = none
unless p (some a) = if p a then none else some a

-- the first record where there is one
abbrev pub or_keep : {A : Type 0} → Option A → Option A → Option A
or_keep none b = b
or_keep (some a) b = some a

module _ (idb : ObjectStore) {V : Type 0} where
  open idb use {Table, get, put, delete, get-put, get-delete}

  unfoldable pub delete_all : Table V → List Text → Table V
  delete_all t [] = t
  delete_all t (k ∷ ks) = delete_all (delete t k) ks

  pub get-delete_all :
      (t : Table V) (ks : List Text) (j : Text)
      → get (delete_all t ks) j ≡ (if contains j ks then none else get t j)
  unfolding delete_all contains
  get-delete_all t [] j = refl
  get-delete_all t (k ∷ ks) j = ground (arith, get-delete_all (delete t k) ks j, get-delete t k j)

  -- If the keys are those of the records that satisfy `p`, exactly these records go.
  pub get-delete_all_exact :
      (p : V → Bool) (t : Table V) (ks : List Text)
      → ((k : Text) (v : V) → get t k ≡ some v → contains k ks ≡ p v)
      → (j : Text) → get (delete_all t ks) j ≡ unless p (get t j)
  get-delete_all_exact p t ks exact j = rw (get-delete_all t ks j) (elim (Option-cases (get t j)) [
    | inl e ↦ rw e (ground arith)
    | inr (v, e) ↦ rw (e, exact j v e) (ground arith)
  ])

  module _ (key : V → Text) where
    unfoldable pub put_all : Table V → List V → Table V
    put_all t [] = t
    put_all t (v ∷ vs) = put_all (put t (key v) v) vs

    pub get-put_all_absent :
        (t : Table V) (vs : List V) (j : Text)
        → contains j (map key vs) ≡ false
        → get (put_all t vs) j ≡ get t j
    unfolding put_all contains
    get-put_all_absent t [] j h = refl
    get-put_all_absent t (v ∷ vs) j h =
        ground (arith, get-put_all_absent (put t (key v) v) vs j, get-put t (key v) j v)

    -- If all that is written under a key is one record, it is what the key reads afterwards.
    pub get-put_all_present :
        (t : Table V) (vs : List V) (j : Text) (w : V)
        → ((v : V) → In v vs → key v ≡ j → v ≡ w)
        → contains j (map key vs) ≡ true
        → get (put_all t vs) j ≡ some w
    unfolding put_all contains
    get-put_all_present t [] j w only h = cc
    get-put_all_present t (v ∷ vs) j w only h = elim (Bool-cases (contains j (map key vs))) [
      | inl later ↦ get-put_all_present (put t (key v) v) vs j w (λ x m. only x (inr m)) later
      | inr here ↦
          let hit = same→eq (key v) j (ground arith) in
          get-put_all_absent (put t (key v) v) vs j here
          ∙ (get-put t (key v) j v ∙ rw (hit, same_refl j) (ap some (only v (inl refl) hit)))
    ]

module _ (idb : ObjectStore) {V : Type 0} (key : V → Text) where
  open idb use {Table, get, entries, entries_iff}

  -- every record stands under its own key
  abbrev pub Keyed : Table V → Type 0
  Keyed t = (k : Text) (v : V) → get t k ≡ some v → key v ≡ k

  -- `getAll` answers the records that are stored.
  pub In-values_iff :
      (t : Table V) (v : V) → Keyed t → In v (map (λ e. e.1) (entries t)) ↔ (get t (key v) ≡ some v)
  In-values_iff t v keyed = (
    λ h.
        let (y, m, r) = In-of_map (λ (y : Text × V). y.1) _ v h in
        let stored = (entries_iff t y.0 y.1).0 m in
        let under = keyed y.0 y.1 stored in rw (← r, under) stored,
    λ h. In-map (λ (y : Text × V). y.1) _ (key v, v) ((entries_iff t (key v) v).1 h),
  )

  module _ (src : Table V) (keyed : Keyed src) where
    abbrev values : List V
    values = map (λ e. e.1) (entries src)

    contains-values : (k : Text) → contains k (map key values) ≡ is_some (get src k)
    contains-values k =
        Bool-ext _ _
          (λ h.
            let (v, m, q) = contains-witness key k _ h in
            rw (← q, (In-values_iff src v keyed).0 m) refl)
          (λ h.
            let (v, e) = is_some-witness (get src k) h in
            rw (← keyed k v e) (
              contains-In key _ v (
                (In-values_iff src v keyed).1
                  (subst (λ z. get src z ≡ some v) (sym (keyed k v e)) e))))

    same_value : (k : Text) (v : V) → get src k ≡ some v → (w : V) → In w values → key w ≡ k → w ≡ v
    same_value k v e w m q =
        let stored = (In-values_iff src w keyed).0 m in cc (stored, ap (get src) q)

    -- Writing all records of one table into another: what the first holds, and else what the
    -- second held before.
    pub get-put_all_values :
        (t : Table V) (k : Text)
        → get (put_all idb key t (map (λ e. e.1) (entries src))) k ≡ or_keep (get src k) (get t k)
    get-put_all_values t k = elim (Option-cases (get src k)) [
      | inl e ↦ rw e (get-put_all_absent idb key t _ k (rw (contains-values k, e)))
      | inr (v, e) ↦
          rw e (get-put_all_present idb key t _ k v (same_value k v e) (rw (contains-values k, e)))
    ]
