-- ===== src/Settings/Invariant.antt =====
-- The settings store along any history of actions: what the user sees is what is stored.
use llm_router_ui.Prelude.{◌≡◌, refl, sym, subst, inr, Bool, Option, none, some, In, or_else}
use llm_router_ui.Text.{Text}
use llm_router_ui.Types.{Provider, Settings, Theme, default_settings}
use llm_router_ui.Types.Patch.{ProviderPatch, SettingsPatch, apply_settings}
use llm_router_ui.Idb.{ObjectStore}
use llm_router_ui.Db.{load_settings}
use llm_router_ui.Db.Keys.{load-save_settings}
use llm_router_ui.Settings.{
  Page, Draft, is_dark, set_and_save, hydrate, dark_after, update, add_provider, update_provider,
  remove_provider, set_active_provider, wipe,
}
use llm_router_ui.Settings.Active.{
  HasActive, default-HasActive, with_provider-HasActive, with_patched-HasActive,
  without_provider-HasActive,
}

patched-HasActive :
    (s : Settings) (patch : SettingsPatch)
    → patch.providers ≡ none
    → patch.active_provider_id ≡ none
    → HasActive s
    → HasActive (apply_settings s patch)
unfolding apply_settings
patched-HasActive s patch e f h = rw (e, f) h

module _ (idb : ObjectStore) (prefers_dark : Bool) where
  -- The actions that the pages of the program call, with what they guarantee of the arguments: a
  -- patch of the settings leaves the providers alone, a patch of a provider keeps its id, and a
  -- provider that is chosen is one of the list.
  pub data Step (page : Page idb prefers_dark) : Page idb prefers_dark → Type 0 where
    hydrates : Step page (hydrate idb prefers_dark page)
    updates :
        (patch : SettingsPatch)
        → patch.providers ≡ none
        → patch.active_provider_id ≡ none
        → Step page (update idb prefers_dark page patch)
    adds : (d : Draft) (id : Text) → Step page (add_provider idb prefers_dark page d id).0
    patches :
        (id : Text) (patch : ProviderPatch)
        → patch.id ≡ none
        → Step page (update_provider idb prefers_dark page id patch)
    removes : (id : Text) → Step page (remove_provider idb prefers_dark page id)
    chooses :
        (p : Provider)
        → In p page.store.settings.providers
        → Step page (set_active_provider idb prefers_dark page (some p.id))
    wipes : Step page (wipe idb prefers_dark page)

  pub data Reach (page : Page idb prefers_dark) : Page idb prefers_dark → Type 0 where
    here : Reach page page
    next : {p q : Page idb prefers_dark} → Reach page p → Step p q → Reach page q

  pub record IsInStep (page : Page idb prefers_dark) : Type 0 where
    -- a reload would load the settings that the page holds
    pub saved : load_settings idb page.db ≡ page.store.settings
    pub active : HasActive page.store.settings
    pub shown : page.dark ≡ is_dark prefers_dark page.store.settings.theme

  set_and_save-IsInStep :
      (page : Page idb prefers_dark) (s : Settings)
      → HasActive s
      → page.dark ≡ is_dark prefers_dark s.theme
      → IsInStep (set_and_save idb prefers_dark page s)
  unfolding set_and_save
  set_and_save-IsInStep page s active shown = record {
    saved = (load-save_settings idb page.db s).0;
    active = active;
    shown = shown;
  }

  pub hydrate-IsInStep :
      (page : Page idb prefers_dark)
      → HasActive (load_settings idb page.db)
      → IsInStep (hydrate idb prefers_dark page)
  unfolding hydrate
  hydrate-IsInStep page h = record { saved = refl; active = h; shown = refl }

  dark_after-shown :
      (old : Theme) (new : Option Theme) (dark : Bool)
      → dark ≡ is_dark prefers_dark old
      → dark_after idb prefers_dark new dark ≡ is_dark prefers_dark (or_else new old)
  unfolding dark_after
  dark_after-shown old none dark h = h
  dark_after-shown old (some new) dark h = refl

  update-IsInStep :
      (page : Page idb prefers_dark) (patch : SettingsPatch)
      → patch.providers ≡ none
      → patch.active_provider_id ≡ none
      → IsInStep page
      → IsInStep (update idb prefers_dark page patch)
  unfolding update
  update-IsInStep page patch no_providers no_active h = record {
    saved = (load-save_settings idb page.db _).0;
    active = patched-HasActive page.store.settings patch no_providers no_active h.active;
    shown = dark_after-shown page.store.settings.theme patch.theme page.dark h.shown;
  }

  pub Step-IsInStep : {p q : Page idb prefers_dark} → Step p q → IsInStep p → IsInStep q
  unfolding add_provider update_provider remove_provider set_active_provider wipe
  Step-IsInStep {p} hydrates h = hydrate-IsInStep p (subst HasActive (sym h.saved) h.active)
  Step-IsInStep {p} (updates patch e f) h = update-IsInStep p patch e f h
  Step-IsInStep {p} (adds d id) h =
      set_and_save-IsInStep p _ (with_provider-HasActive p.store.settings d id h.active) h.shown
  Step-IsInStep {p} (patches id patch e) h =
      set_and_save-IsInStep p _ (with_patched-HasActive p.store.settings id patch e h.active)
        h.shown
  Step-IsInStep {p} (removes id) h =
      set_and_save-IsInStep p _ (without_provider-HasActive p.store.settings id h.active) h.shown
  Step-IsInStep {p} (chooses c m) h = set_and_save-IsInStep p _ (inr (c, m, refl)) h.shown
  Step-IsInStep {p} wipes h = record {
    saved = (load-save_settings idb p.db default_settings).1;
    active = default-HasActive;
    shown = refl;
  }

  -- After the store is hydrated from settings whose active id, if there is one, is that of a listed
  -- provider, and then through any actions in any order, the settings on the page are those that a
  -- reload would load, the active id, if there is one, is that of a listed provider, and the theme
  -- class is that of the settings. The conditions on the actions, which the components meet: a patch
  -- of the settings sets neither the providers nor the active id, a patch of a provider sets no id,
  -- and a provider that is made active is one of the list. The system's preference for a dark theme
  -- is fixed.
  pub Reach-IsInStep :
      (page : Page idb prefers_dark) {later : Page idb prefers_dark}
      → HasActive (load_settings idb page.db)
      → Reach (hydrate idb prefers_dark page) later
      → IsInStep later
  Reach-IsInStep page h here = hydrate-IsInStep page h
  Reach-IsInStep page h (next r s) = Step-IsInStep s (Reach-IsInStep page h r)
