-- ===== src/SettingsModal/Actions.antt =====
-- The handlers of frontend/src/components/SettingsModal.tsx that act on the stores.
use llm_router_ui.Prelude.{ℕ, Bool, true, false, ◌||◌, not, Option, none, some, if◌then◌else◌}
use llm_router_ui.Text.{Text, codes, same, is_empty, trim}
use llm_router_ui.Types.{Theme}
use llm_router_ui.Types.Patch.{SettingsPatch, no_settings, no_provider_patch}
use llm_router_ui.Idb.{ObjectStore}
use llm_router_ui.Db.Backup.{
  Json, export_data, import_data, imported, stopped, syntax_error, failed,
}
use llm_router_ui.Settings.{
  active_provider, update, add_provider, update_provider, remove_provider, set_active_provider,
  wipe,
}
use llm_router_ui.Chats
use llm_router_ui.Chats.{World, select_chat}
use llm_router_ui.Screen.{Screen, on_world, on_page, set_settings_open}
use llm_router_ui.SettingsModal.{ModalState, named, end_adding, reset}

module _ (idb : ObjectStore) (prefers_dark : Bool) where
  abbrev pub Modal : Type 0
  Modal = Screen idb prefers_dark × ModalState

  unfoldable pub save_draft : (hostname : Text → Option Text) → Modal → Text → Modal
  unfolding named
  save_draft hostname (s, m) id =
      if is_empty (trim m.draft.base_url) || is_empty (trim m.draft.model) then (s, m) else (
        on_page idb prefers_dark s
            (λ page. (add_provider idb prefers_dark page (named hostname m.draft) id).0),
        end_adding m,
      )

  -- `onClose`
  abbrev pub close : Modal → Modal
  close (s, m) = (set_settings_open idb prefers_dark s false, reset m)

  unfoldable pub escape_key : Modal → Text → Modal
  escape_key sm key = if same key (codes "Escape") then close sm else sm

  -- the document that is saved as a file; `none` where the export throws
  abbrev pub do_export : (json : Json) → Screen idb prefers_dark → Option json.Document
  do_export json s = export_data idb json s.world.db

  -- the message of the parser's error is its own
  unfoldable pub do_import : (json : Json) (parser_message : Text) → Modal → json.Document → Modal
  do_import json parser_message (s, m) document = elim (import_data idb json s.world.db document) [
    | imported db ↦ (
      on_world idb prefers_dark s (λ w. Chats.hydrate idb (record w { db = db })),
      record m { test_result = some (record { ok = true; msg = codes "Backup imported" }) },
    )
    | stopped db message ↦ (
      on_world idb prefers_dark s (λ w. record w { db = db }),
      record m { test_result = some (record { ok = false; msg = message }) },
    )
    | syntax_error ↦
        (s, record m { test_result = some (record { ok = false; msg = parser_message }) })
    | failed message ↦ (s, record m { test_result = some (record { ok = false; msg = message }) })
  ]

  -- `confirmed` is the answer to the dialog
  unfoldable pub do_wipe : Bool → Modal → Modal
  do_wipe confirmed (s, m) =
      if not confirmed
      then (s, m)
      else (let wiped = on_page idb prefers_dark s (wipe idb prefers_dark) in
          let read = on_world idb prefers_dark wiped (Chats.hydrate idb) in
          close (on_world idb prefers_dark read (λ w. select_chat idb w none), m))

  abbrev change : Screen idb prefers_dark → SettingsPatch → Screen idb prefers_dark
  change s patch = on_page idb prefers_dark s (λ page. update idb prefers_dark page patch)

  unfoldable pub type_model : Screen idb prefers_dark → Text → Screen idb prefers_dark
  type_model s model = elim (active_provider s.preferences.settings) [
    | none ↦ s
    | some p ↦ on_page idb prefers_dark s (λ page.
        update_provider idb prefers_dark page p.id
          (record no_provider_patch { model = some model }))
  ]

  unfoldable pub press_use : Screen idb prefers_dark → Text → Screen idb prefers_dark
  press_use s id =
      on_page idb prefers_dark s (λ page. set_active_provider idb prefers_dark page (some id))

  unfoldable pub press_remove : Screen idb prefers_dark → Text → Screen idb prefers_dark
  press_remove s id = on_page idb prefers_dark s (λ page. remove_provider idb prefers_dark page id)

  unfoldable pub type_system_prompt : Screen idb prefers_dark → Text → Screen idb prefers_dark
  type_system_prompt s text = change s (record no_settings { system_prompt = some text })

  unfoldable pub set_temperature : Screen idb prefers_dark → ℕ → Screen idb prefers_dark
  set_temperature s t = change s (record no_settings { temperature = some t })

  -- `none` is the empty input
  unfoldable pub set_max_tokens : Screen idb prefers_dark → Option ℕ → Screen idb prefers_dark
  set_max_tokens s n = change s (record no_settings { max_tokens = some n })

  unfoldable pub set_streaming : Screen idb prefers_dark → Bool → Screen idb prefers_dark
  set_streaming s b = change s (record no_settings { streaming = some b })

  unfoldable pub set_send_on_enter : Screen idb prefers_dark → Bool → Screen idb prefers_dark
  set_send_on_enter s b = change s (record no_settings { send_on_enter = some b })

  unfoldable pub choose_theme : Screen idb prefers_dark → Theme → Screen idb prefers_dark
  choose_theme s t = change s (record no_settings { theme = some t })
