-- ===== src/Ui/Preferences.antt =====
-- The handlers of frontend/src/components that save settings keep what holds of the page.
use llm_router_ui.Prelude.{
  ◌≡◌, refl, Bool, ◌||◌, Option, none, some, In, Option-cases, if_either, inl, inr,
}
use llm_router_ui.Text.{Text, is_empty, trim}
use llm_router_ui.Types.{Provider}
use llm_router_ui.Types.Patch.{SettingsPatch, ProviderPatch, apply_settings, no_provider_patch}
use llm_router_ui.Idb.{ObjectStore}
use llm_router_ui.Settings.{
  active_provider, set_and_save, with_provider, with_patched, without_provider, update,
  add_provider, update_provider, remove_provider, set_active_provider,
}
use llm_router_ui.Settings.Invariant.{updates, adds, patches, removes, chooses}
use llm_router_ui.Screen.{Screen, on_page}
use llm_router_ui.Composer.{ComposerState, choose_model}
use llm_router_ui.SettingsModal.{ModalState, named}
use llm_router_ui.SettingsModal.Actions.{save_draft, type_model, press_use, press_remove}
use llm_router_ui.Ui.Sound.{IsSound, saved-Sound}

module _ (idb : ObjectStore) (prefers_dark : Bool) where
  pub update-IsSound :
      (s : Screen idb prefers_dark) (patch : SettingsPatch)
      → patch.providers ≡ none
      → patch.active_provider_id ≡ none
      → IsSound idb prefers_dark s
      → IsSound idb prefers_dark
          (on_page idb prefers_dark s (λ page. update idb prefers_dark page patch))
  unfolding update set_and_save
  update-IsSound s patch e f h =
      saved-Sound idb prefers_dark s.world s.preferences s.dark _
        (apply_settings s.preferences.settings patch) (updates patch e f) refl h

  pub patch-IsSound :
      (s : Screen idb prefers_dark) (id : Text) (patch : ProviderPatch)
      → patch.id ≡ none
      → IsSound idb prefers_dark s
      → IsSound idb prefers_dark
          (on_page idb prefers_dark s (λ page. update_provider idb prefers_dark page id patch))
  unfolding update_provider set_and_save
  patch-IsSound s id patch e h =
      saved-Sound idb prefers_dark s.world s.preferences s.dark _
        (with_patched s.preferences.settings id patch) (patches id patch e) refl h

  pub press_remove-IsSound :
      (s : Screen idb prefers_dark) (id : Text)
      → IsSound idb prefers_dark s
      → IsSound idb prefers_dark (press_remove idb prefers_dark s id)
  unfolding press_remove remove_provider set_and_save
  press_remove-IsSound s id h =
      saved-Sound idb prefers_dark s.world s.preferences s.dark _
        (without_provider s.preferences.settings id) (removes id) refl h

  pub press_use-IsSound :
      (s : Screen idb prefers_dark) (p : Provider)
      → In p s.preferences.settings.providers
      → IsSound idb prefers_dark s
      → IsSound idb prefers_dark (press_use idb prefers_dark s p.id)
  unfolding press_use set_active_provider set_and_save
  press_use-IsSound s p m h =
      saved-Sound idb prefers_dark s.world s.preferences s.dark _
        (record s.preferences.settings { active_provider_id = some p.id }) (chooses p m) refl h

  pub save_draft-IsSound :
      (hostname : Text → Option Text) (s : Screen idb prefers_dark) (m : ModalState) (id : Text)
      → IsSound idb prefers_dark s
      → IsSound idb prefers_dark (save_draft idb prefers_dark hostname (s, m) id).0
  unfolding save_draft add_provider set_and_save
  save_draft-IsSound hostname s m id h =
      if_either (λ (sm : Screen idb prefers_dark × ModalState). IsSound idb prefers_dark sm.0)
        (is_empty (trim m.draft.base_url) || is_empty (trim m.draft.model)) _ _ h
        (saved-Sound idb prefers_dark s.world s.preferences s.dark _
          (with_provider s.preferences.settings (named hostname m.draft) id)
          (adds (named hostname m.draft) id) refl h)

  pub type_model-IsSound :
      (s : Screen idb prefers_dark) (model : Text)
      → IsSound idb prefers_dark s
      → IsSound idb prefers_dark (type_model idb prefers_dark s model)
  unfolding type_model
  type_model-IsSound s model h = elim (Option-cases (active_provider s.preferences.settings)) [
    | inl e ↦ rw (type_model, e) h
    | inr (p, e) ↦
        rw (type_model, e)
          (patch-IsSound s p.id (record no_provider_patch { model = some model }) refl h)
  ]

  pub choose_model-IsSound :
      (s : Screen idb prefers_dark) (c : ComposerState) (model : Text)
      → IsSound idb prefers_dark s
      → IsSound idb prefers_dark (choose_model idb prefers_dark (s, c) model).0
  unfolding choose_model
  choose_model-IsSound s c model h = elim (Option-cases (active_provider s.preferences.settings)) [
    | inl e ↦ rw (choose_model, e) h
    | inr (p, e) ↦
        rw (choose_model, e)
          (patch-IsSound s p.id (record no_provider_patch { model = some model }) refl h)
  ]
