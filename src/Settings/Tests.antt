-- ===== src/Settings/Tests.antt =====
-- The settings theorems along a short history.
use llm_router_ui.Prelude.{◌≢◌, ◌∷◌, ◌⊎◌, List, ◌++◌, ◌≡◌, ◌↔◌, true, false, none, some, [], In}
use llm_router_ui.Text.{Text, codes}
use llm_router_ui.Types.{Provider, default_settings}
use llm_router_ui.Idb.Assoc.{assoc_store, lookup}
use llm_router_ui.Db.{fresh, load_settings}
use llm_router_ui.Settings.{
  Page, Draft, initial, active_provider, hydrate, add_provider, remove_provider,
}
use llm_router_ui.Settings.Active.{HasActive, default-HasActive, active_provider_exact}
use llm_router_ui.Settings.Invariant.{here, next, adds, removes, IsInStep, Reach-IsInStep}

abbrev first_visit : Page assoc_store true
first_visit = record { store = initial; dark = false; db = fresh assoc_store }

abbrev groq : Draft
groq = record {
  name = codes "Groq";
  base_url = codes "https://g/v1";
  api_key = [];
  model = codes "l";
}

fresh-HasActive : HasActive (load_settings assoc_store (fresh assoc_store))
unfolding load_settings lookup
fresh-HasActive = default-HasActive

abbrev after_add : Page assoc_store true
after_add =
    (add_provider assoc_store true (hydrate assoc_store true first_visit) groq (codes "g")).0

Reach-IsInStep_example :
    IsInStep assoc_store true (remove_provider assoc_store true after_add (codes "gateway"))
Reach-IsInStep_example =
    Reach-IsInStep assoc_store true first_visit fresh-HasActive
      (next (next here (adds groq (codes "g"))) (removes (codes "gateway")))

active_provider_exact_example :
    ((p : Provider)
      → active_provider default_settings ≡ some p
      → (before : List Provider) × (after : List Provider) × (default_settings.providers
          ≡ before ++ p ∷ after)
        × (default_settings.active_provider_id ≡ some p.id)
        × ((q : Provider) → In q before → default_settings.active_provider_id ≢ some q.id))
    × ((active_provider default_settings ≡ none) ↔ (
        (default_settings.active_provider_id ≡ none)
        ⊎ ((id : Text) × (default_settings.active_provider_id ≡ some id)
            × ((q : Provider) → In q default_settings.providers → q.id ≢ id))))
active_provider_exact_example = active_provider_exact default_settings
