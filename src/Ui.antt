-- ===== src/Ui.antt =====
-- The page as a whole: the stores, the states of the components, and what each action of a handler
-- in frontend/src/App.tsx and frontend/src/components does to them. What the platform answers in
-- one action (fresh ids, the clock, the network, the dialogs) is given with it.
pub mod Sound
pub mod Preferences
pub mod Chatting
pub mod Backups
pub mod Handled
pub mod Session
mod Tests
use llm_router_ui.Prelude.{ℕ, Bool, true, false, Option, none, some, if◌then◌else◌}
use llm_router_ui.Text.{Text, is_empty}
use llm_router_ui.Idb.{ObjectStore}
use llm_router_ui.Db.Backup.{Json}
use llm_router_ui.Api.{Platform, Response, Result}
use llm_router_ui.Api.Request.{Request}
use llm_router_ui.Chats.{clear_error}
use llm_router_ui.Chats.Run.{Ticks}
use llm_router_ui.Chats.Send.{SendTicks, regenerate}
use llm_router_ui.Screen.{Screen, on_world, set_sidebar_open, set_settings_open}
use llm_router_ui.Sidebar.{
  Editing, start_editing, set_draft, commit_rename, rename_key, handle_select, press_new_chat,
  press_delete, press_settings,
}
use llm_router_ui.Composer.{
  ComposerState, toggle_picker, picker_key, press_web, choose_engine, choose_model, press_stop,
  submit, on_key_down,
}
use llm_router_ui.SettingsModal.{
  ModalState, begin_adding, end_adding, apply_preset, set_name, set_base_url, set_api_key,
  set_model, test_connection, probe,
}
use llm_router_ui.SettingsModal.Actions.{
  close, save_draft, do_import, do_wipe, type_model, press_use, press_remove, type_system_prompt,
  set_temperature, set_max_tokens, set_streaming, set_send_on_enter, choose_theme,
}
use llm_router_ui.View.Actions
use llm_router_ui.View.Actions.{Action}

module _ (idb : ObjectStore) (prefers_dark : Bool) (platform : Platform) (json : Json) where
  pub record Answers : Type 0 where
    pub fetch : Request → Result Response
    pub send_ticks : SendTicks
    pub run_ticks : Ticks
    pub provider_id : Text
    pub now : ℕ
    pub hostname : Text → Option Text
    pub confirmed : Bool
    -- a file that is chosen, and the message of the parser that refuses one
    pub read_file : Text → json.Document
    pub parser_message : Text
    -- `Number` of a typed text; a temperature in hundredths
    pub number : Text → ℕ
    pub hundredths : Text → ℕ

  pub record Ui : Type 0 where
    pub screen : Screen idb prefers_dark
    pub open screen use *
    pub editing : Editing
    pub composer : ComposerState
    pub modal : ModalState

  abbrev on_screen : Ui → (Screen idb prefers_dark → Screen idb prefers_dark) → Ui
  on_screen ui f = record ui { screen = f ui.screen }

  abbrev on_editing :
      Ui → (Screen idb prefers_dark × Editing → Screen idb prefers_dark × Editing) → Ui
  on_editing ui f =
      let after = f (ui.screen, ui.editing) in record ui { screen = after.0; editing = after.1 }

  abbrev on_composer :
      Ui → (Screen idb prefers_dark × ComposerState → Screen idb prefers_dark × ComposerState) → Ui
  on_composer ui f =
      let after = f (ui.screen, ui.composer) in record ui { screen = after.0; composer = after.1 }

  abbrev on_modal :
      Ui → (Screen idb prefers_dark × ModalState → Screen idb prefers_dark × ModalState) → Ui
  on_modal ui f =
      let after = f (ui.screen, ui.modal) in record ui { screen = after.0; modal = after.1 }

  abbrev in_modal : Ui → ModalState → Ui
  in_modal ui m = record ui { modal = m }

  unfoldable pub handle : Action → Answers → Ui → Ui
  handle Actions.open_sidebar a ui = on_screen ui (λ s. set_sidebar_open idb prefers_dark s true)
  handle Actions.close_sidebar a ui = on_screen ui (λ s. set_sidebar_open idb prefers_dark s false)
  handle Actions.open_settings a ui = on_screen ui (λ s. set_settings_open idb prefers_dark s true)
  handle Actions.close_settings a ui = on_modal ui (close idb prefers_dark)
  handle Actions.dismiss_error a ui =
      on_screen ui (λ s. on_world idb prefers_dark s (clear_error idb))
  handle Actions.press_new_chat a ui = on_screen ui (press_new_chat idb prefers_dark)
  handle Actions.press_settings a ui = on_screen ui (press_settings idb prefers_dark)
  handle (Actions.select id) a ui = on_screen ui (λ s. handle_select idb prefers_dark s id)
  handle (Actions.press_delete id) a ui = on_screen ui (λ s. press_delete idb prefers_dark s id)
  handle (Actions.rename_blur id) a ui =
      on_editing ui (λ se. commit_rename idb prefers_dark se id a.now)
  handle (Actions.rename_press id e) a ui =
      on_editing ui (λ se. rename_key idb prefers_dark se id e.key a.now)
  handle (Actions.type_title t) a ui = record ui { editing = set_draft ui.editing t }
  handle (Actions.start_rename c) a ui = record ui { editing = start_editing ui.editing c }
  handle Actions.press_regenerate a ui = on_screen ui (λ s.
      on_world idb prefers_dark s
        (λ w. regenerate idb platform a.fetch s.preferences.settings w a.run_ticks))
  handle (Actions.copy t) a ui = ui
  handle Actions.press_send a ui =
      on_composer ui (λ sc. submit idb prefers_dark platform a.fetch sc a.send_ticks a.run_ticks)
  handle Actions.press_stop a ui = on_screen ui (press_stop idb prefers_dark)
  handle Actions.press_picker a ui = record ui { composer = toggle_picker ui.composer }
  handle Actions.press_web a ui = on_screen ui (press_web idb prefers_dark)
  handle (Actions.type_text t) a ui = record ui { composer = record ui.composer { text = t } }
  handle (Actions.type_query t) a ui = record ui { composer = record ui.composer { query = t } }
  handle (Actions.choose_model m) a ui = on_composer ui (λ sc. choose_model idb prefers_dark sc m)
  handle (Actions.press_key e) a ui =
      on_composer ui
        (λ sc. on_key_down idb prefers_dark platform a.fetch sc e a.send_ticks a.run_ticks)
  handle (Actions.picker_press e) a ui = record ui { composer = picker_key ui.composer e.key }
  handle (Actions.choose_engine e) a ui = on_screen ui (λ s. choose_engine idb prefers_dark s e)
  handle Actions.press_add a ui = in_modal ui (begin_adding ui.modal)
  handle Actions.press_cancel a ui = in_modal ui (end_adding ui.modal)
  handle Actions.press_save a ui =
      on_modal ui (λ sm. save_draft idb prefers_dark a.hostname sm a.provider_id)
  handle Actions.press_test a ui =
      in_modal ui (test_connection platform a.fetch ui.modal (probe ui.modal.draft))
  handle (Actions.press_load p) a ui = in_modal ui (test_connection platform a.fetch ui.modal p)
  handle Actions.press_export a ui = ui
  handle Actions.press_file a ui = ui
  handle Actions.press_wipe a ui = on_modal ui (do_wipe idb prefers_dark a.confirmed)
  handle (Actions.press_preset p) a ui = in_modal ui (apply_preset ui.modal p)
  handle (Actions.press_use id) a ui = on_screen ui (λ s. press_use idb prefers_dark s id)
  handle (Actions.press_remove id) a ui = on_screen ui (λ s. press_remove idb prefers_dark s id)
  handle (Actions.type_name t) a ui = in_modal ui (set_name ui.modal t)
  handle (Actions.type_base_url t) a ui = in_modal ui (set_base_url ui.modal t)
  handle (Actions.type_api_key t) a ui = in_modal ui (set_api_key ui.modal t)
  handle (Actions.type_draft_model t) a ui = in_modal ui (set_model ui.modal t)
  handle (Actions.type_model t) a ui = on_screen ui (λ s. type_model idb prefers_dark s t)
  handle (Actions.type_system_prompt t) a ui =
      on_screen ui (λ s. type_system_prompt idb prefers_dark s t)
  handle (Actions.type_temperature t) a ui =
      on_screen ui (λ s. set_temperature idb prefers_dark s (a.hundredths t))
  handle (Actions.type_max_tokens t) a ui =
      on_screen ui
        (λ s. set_max_tokens idb prefers_dark s (if is_empty t then none else some (a.number t)))
  -- the value is empty where no file is chosen
  handle (Actions.choose_file t) a ui =
      if is_empty t
      then ui
      else on_modal ui (λ sm. do_import idb prefers_dark json a.parser_message sm (a.read_file t))
  handle (Actions.check_streaming b) a ui = on_screen ui (λ s. set_streaming idb prefers_dark s b)
  handle (Actions.check_send_on_enter b) a ui =
      on_screen ui (λ s. set_send_on_enter idb prefers_dark s b)
  handle (Actions.press_theme t) a ui = on_screen ui (λ s. choose_theme idb prefers_dark s t)
