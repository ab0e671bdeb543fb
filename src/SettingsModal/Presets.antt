-- ===== src/SettingsModal/Presets.antt =====
-- A preset of frontend/src/components/SettingsModal.tsx, from its button to the stored provider.
use llm_router_ui.Prelude.{◌≡◌, refl, Bool, false, Option, [], ◌∷◌, ◌++◌, In, inl, inr}
use llm_router_ui.Text.{Text, codes, starts_with, is_empty, is_space, trim, drop_start, drop_end}
use llm_router_ui.Idb.{ObjectStore}
use llm_router_ui.Api.Url.{normalize_base_url, proxy_url}
use llm_router_ui.Settings.{with_id, with_provider, add_provider, set_and_save}
use llm_router_ui.Screen.{Screen}
use llm_router_ui.SettingsModal.{Preset, presets, ModalState, apply_preset, named, save_disabled}
use llm_router_ui.SettingsModal.Actions.{save_draft}

abbrev IsComplete : Preset → Type 0
IsComplete p =
    (is_empty (trim p.base_url) ≡ false)
    × (is_empty (trim p.model) ≡ false)
    × (is_empty (trim p.name) ≡ false)
    × (trim p.name ≡ p.name)

presets-IsComplete : (p : Preset) → In p presets → IsComplete p
unfolding trim is_empty drop_start drop_end is_space
presets-IsComplete p (inl e) = rw e (refl, refl, refl, refl)
presets-IsComplete p (inr (inl e)) = rw e (refl, refl, refl, refl)
presets-IsComplete p (inr (inr (inl e))) = rw e (refl, refl, refl, refl)
presets-IsComplete p (inr (inr (inr (inl e)))) = rw e (refl, refl, refl, refl)
presets-IsComplete p (inr (inr (inr (inr (inl e))))) = rw e (refl, refl, refl, refl)
presets-IsComplete p (inr (inr (inr (inr (inr (inl e)))))) = rw e (refl, refl, refl, refl)
presets-IsComplete p (inr (inr (inr (inr (inr (inr e)))))) = elim e [ ]

-- an absolute URL as it is to be
abbrev IsRemote : Preset → Type 0
IsRemote p =
    (normalize_base_url p.base_url ≡ p.base_url)
    × (starts_with (codes "/") (normalize_base_url p.base_url) ≡ false)

presets-IsRemote : (p : Preset) → In p presets → IsRemote p
unfolding normalize_base_url starts_with trim is_empty drop_start drop_end is_space
presets-IsRemote p (inl e) = rw e (refl, refl)
presets-IsRemote p (inr (inl e)) = rw e (refl, refl)
presets-IsRemote p (inr (inr (inl e))) = rw e (refl, refl)
presets-IsRemote p (inr (inr (inr (inl e)))) = rw e (refl, refl)
presets-IsRemote p (inr (inr (inr (inr (inl e))))) = rw e (refl, refl)
presets-IsRemote p (inr (inr (inr (inr (inr (inl e)))))) = rw e (refl, refl)
presets-IsRemote p (inr (inr (inr (inr (inr (inr e)))))) = elim e [ ]

proxied_preset :
    (p : Preset) (path : Text)
    → In p presets
    → proxy_url p.base_url path ≡ codes "/proxy/remote/" ++ (p.base_url ++ path)
unfolding proxy_url
proxied_preset p path h =
    let (whole, remote) = presets-IsRemote p h in rw (proxy_url, remote, whole) refl

module _ (idb : ObjectStore) (prefers_dark : Bool) (hostname : Text → Option Text) where
  -- After a press on any preset the draft can be saved, whatever was typed before, and saving it
  -- adds exactly the preset's provider, with the typed key, at the end of the list. Each of its
  -- requests goes to the path `/proxy/remote/` of the page's server, local presets included.
  pub save_draft-apply_preset :
      (s : Screen idb prefers_dark) (m : ModalState) (p : Preset) (id path : Text)
      → In p presets
      → (save_disabled (apply_preset m p) ≡ false)
        × ((let saved = (save_draft idb prefers_dark hostname (s, apply_preset m p) id).0 in
              saved.preferences.settings.providers)
            ≡ s.preferences.settings.providers
              ++ record {
                id = id;
                name = p.name;
                base_url = p.base_url;
                api_key = m.draft.api_key;
                model = p.model;
              }
                ∷ [])
        × (proxy_url p.base_url path ≡ codes "/proxy/remote/" ++ (p.base_url ++ path))
  unfolding save_draft save_disabled apply_preset named add_provider set_and_save with_provider
      with_id
  save_draft-apply_preset s m p id path h =
      let (url, model, name, same_name) = presets-IsComplete p h in
      (rw (url, model), rw (save_draft, url, model, name, same_name), proxied_preset p path h)
