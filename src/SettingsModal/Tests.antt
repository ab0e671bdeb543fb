-- ===== src/SettingsModal/Tests.antt =====
-- The settings modal at a concrete screen.
use llm_router_ui.Prelude.{◌≡◌, refl, true, false, Option, none, [], ◌∷◌, ◌++◌, inl, inr}
use llm_router_ui.Text.{Text, codes}
use llm_router_ui.Types.{default_settings}
use llm_router_ui.Idb.Assoc.{assoc_store}
use llm_router_ui.Api.Url.{proxy_url}
use llm_router_ui.SettingsModal.{Preset, empty_modal, apply_preset, save_disabled}
use llm_router_ui.SettingsModal.Actions.{save_draft, do_wipe}
use llm_router_ui.SettingsModal.Presets.{save_draft-apply_preset}
use llm_router_ui.SettingsModal.Wipe.{do_wipe_exact}
use llm_router_ui.Samples.{screen}

abbrev no_host : Text → Option Text
no_host url = none

abbrev open_router : Preset
open_router = record {
  name = codes "OpenRouter";
  base_url = codes "https://openrouter.ai/api/v1";
  model = codes "openai/gpt-4o-mini";
}

save_draft-apply_preset_example :
    (save_disabled (apply_preset empty_modal open_router) ≡ false)
    × ((let saved =
            (save_draft assoc_store true no_host
              (screen, apply_preset empty_modal open_router)
              (codes "p2")).0 in
          saved.preferences.settings.providers)
        ≡ screen.preferences.settings.providers
          ++ record {
            id = codes "p2";
            name = codes "OpenRouter";
            base_url = codes "https://openrouter.ai/api/v1";
            api_key = [];
            model = codes "openai/gpt-4o-mini";
          }
            ∷ [])
    × (proxy_url open_router.base_url (codes "/models")
        ≡ codes "/proxy/remote/" ++ (open_router.base_url ++ codes "/models"))
save_draft-apply_preset_example =
    save_draft-apply_preset assoc_store true no_host screen empty_modal open_router (codes "p2")
      (codes "/models") (inr (inl refl))

do_wipe_exact_example :
    (let after = (do_wipe assoc_store true true (screen, empty_modal)).0 in
      (do_wipe assoc_store true false (screen, empty_modal) ≡ (screen, empty_modal))
      × (after.world.chats ≡ [])
      × (after.world.messages ≡ [])
      × (after.world.active_chat_id ≡ none)
      × (assoc_store.get after.world.db.chats (codes "c1") ≡ none)
      × (assoc_store.get after.world.db.messages (codes "c1") ≡ none)
      × (after.preferences.settings ≡ default_settings))
do_wipe_exact_example = do_wipe_exact assoc_store true screen empty_modal (codes "c1")
