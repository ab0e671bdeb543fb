-- ===== src/Ui/Handled.antt =====
-- Every action of the page keeps both stores what their database says.
use llm_router_ui.Prelude.{◌≡◌, refl, subst, Bool, none, some, In, if_either}
use llm_router_ui.Text.{is_empty}
use llm_router_ui.Types.{Provider}
use llm_router_ui.Idb.{ObjectStore}
use llm_router_ui.Db.Backup.{Json}
use llm_router_ui.Api.{Platform}
use llm_router_ui.Chats.Send.{chosen_chat}
use llm_router_ui.Chats.Mirror.Sending.{IsFresh}
use llm_router_ui.Chats.Mirror.History
use llm_router_ui.Sidebar.{handle_select, press_new_chat, press_delete, press_settings}
use llm_router_ui.Composer.{press_web, choose_engine, press_stop}
use llm_router_ui.SettingsModal.Actions.{
  press_use, type_system_prompt, set_temperature, set_max_tokens, set_streaming, set_send_on_enter,
  choose_theme,
}
use llm_router_ui.Ui.{Answers, Ui, handle}
use llm_router_ui.Ui.Sound.{IsSound, stepped-Sound}
use llm_router_ui.Ui.Preferences.{
  update-IsSound, press_remove-IsSound, press_use-IsSound, save_draft-IsSound, type_model-IsSound,
  choose_model-IsSound,
}
use llm_router_ui.Ui.Chatting.{
  commit_rename-IsSound, rename_key-IsSound, submit-IsSound, on_key_down-IsSound,
}
use llm_router_ui.Ui.Backups.{do_wipe-IsSound, do_import-IsSound}
use llm_router_ui.View.Actions
use llm_router_ui.View.Actions.{Action}

module _ (idb : ObjectStore) (prefers_dark : Bool) (platform : Platform) (json : Json) where
  open idb use {get}

  -- What an action needs: fresh ids where a message or an answer is made, a provider of the list
  -- where one is chosen, and no open chat where a backup is imported.
  abbrev pub Allowed :
      Action → Answers idb prefers_dark platform json → Ui idb prefers_dark platform json → Type 0
  Allowed Actions.press_send a ui = IsFresh idb ui.world a.send_ticks a.run_ticks
  Allowed (Actions.press_key e) a ui = IsFresh idb ui.world a.send_ticks a.run_ticks
  Allowed Actions.press_regenerate a ui = get ui.world.db.messages a.run_ticks.assistant_id ≡ none
  Allowed (Actions.press_use id) a ui =
      (p : Provider) × In p ui.preferences.settings.providers × (p.id ≡ id)
  Allowed (Actions.choose_file t) a ui = chosen_chat ui.world.active_chat_id ≡ none
  Allowed _ a ui = Unit {0}

  abbrev Holds : Ui idb prefers_dark platform json → Type 0
  Holds ui = IsSound idb prefers_dark ui.screen

  -- Each action of each handler of the page, taken as a whole, keeps this: the messages shown are
  -- those stored for the active chat, up to an error of the empty text; nothing streams once the
  -- action is over; and the settings and the theme shown are those that a reload would load. The
  -- action must be allowed.
  pub handle-IsSound :
      (action : Action) (a : Answers idb prefers_dark platform json)
      (ui : Ui idb prefers_dark platform json)
      → Allowed action a ui
      → IsSound idb prefers_dark ui.screen
      → IsSound idb prefers_dark (handle idb prefers_dark platform json action a ui).screen
  unfolding handle press_new_chat press_settings handle_select press_delete press_web choose_engine
      press_stop type_system_prompt set_temperature set_max_tokens set_streaming set_send_on_enter
      choose_theme
  handle-IsSound Actions.open_sidebar a ui ok h = h
  handle-IsSound Actions.close_sidebar a ui ok h = h
  handle-IsSound Actions.open_settings a ui ok h = h
  handle-IsSound Actions.close_settings a ui ok h = h
  handle-IsSound Actions.dismiss_error a ui ok h =
      stepped-Sound idb prefers_dark platform History.clears_error h
  handle-IsSound Actions.press_new_chat a ui ok h =
      stepped-Sound idb prefers_dark platform History.opens_new h
  handle-IsSound Actions.press_settings a ui ok h = h
  handle-IsSound (Actions.select id) a ui ok h =
      stepped-Sound idb prefers_dark platform (History.selects (some id)) h
  handle-IsSound (Actions.press_delete id) a ui ok h =
      stepped-Sound idb prefers_dark platform (History.removes id) h
  handle-IsSound (Actions.rename_blur id) a ui ok h =
      commit_rename-IsSound idb prefers_dark platform ui.screen ui.editing id a.now h
  handle-IsSound (Actions.rename_press id e) a ui ok h =
      rename_key-IsSound idb prefers_dark platform ui.screen ui.editing id e.key a.now h
  handle-IsSound (Actions.type_title t) a ui ok h = h
  handle-IsSound (Actions.start_rename c) a ui ok h = h
  handle-IsSound Actions.press_regenerate a ui ok h =
      stepped-Sound idb prefers_dark platform
        (History.regenerates a.fetch ui.preferences.settings a.run_ticks ok) h
  handle-IsSound (Actions.copy t) a ui ok h = h
  handle-IsSound Actions.press_send a ui ok h =
      submit-IsSound idb prefers_dark platform a.fetch ui.screen ui.composer a.send_ticks
        a.run_ticks ok h
  handle-IsSound Actions.press_stop a ui ok h =
      stepped-Sound idb prefers_dark platform History.stops h
  handle-IsSound Actions.press_picker a ui ok h = h
  handle-IsSound Actions.press_web a ui ok h =
      update-IsSound idb prefers_dark ui.screen _ refl refl h
  handle-IsSound (Actions.type_text t) a ui ok h = h
  handle-IsSound (Actions.type_query t) a ui ok h = h
  handle-IsSound (Actions.choose_model m) a ui ok h =
      choose_model-IsSound idb prefers_dark ui.screen ui.composer m h
  handle-IsSound (Actions.press_key e) a ui ok h =
      on_key_down-IsSound idb prefers_dark platform a.fetch ui.screen ui.composer e a.send_ticks
        a.run_ticks ok h
  handle-IsSound (Actions.picker_press e) a ui ok h = h
  handle-IsSound (Actions.choose_engine e) a ui ok h =
      update-IsSound idb prefers_dark ui.screen _ refl refl h
  handle-IsSound Actions.press_add a ui ok h = h
  handle-IsSound Actions.press_cancel a ui ok h = h
  handle-IsSound Actions.press_save a ui ok h =
      save_draft-IsSound idb prefers_dark a.hostname ui.screen ui.modal a.provider_id h
  handle-IsSound Actions.press_test a ui ok h = h
  handle-IsSound (Actions.press_load p) a ui ok h = h
  handle-IsSound Actions.press_export a ui ok h = h
  handle-IsSound Actions.press_file a ui ok h = h
  handle-IsSound Actions.press_wipe a ui ok h =
      do_wipe-IsSound idb prefers_dark a.confirmed ui.screen ui.modal h
  handle-IsSound (Actions.press_preset p) a ui ok h = h
  handle-IsSound (Actions.press_use id) a ui (p, m, e) h =
      subst (λ k. IsSound idb prefers_dark (press_use idb prefers_dark ui.screen k)) e
        (press_use-IsSound idb prefers_dark ui.screen p m h)
  handle-IsSound (Actions.press_remove id) a ui ok h =
      press_remove-IsSound idb prefers_dark ui.screen id h
  handle-IsSound (Actions.type_name t) a ui ok h = h
  handle-IsSound (Actions.type_base_url t) a ui ok h = h
  handle-IsSound (Actions.type_api_key t) a ui ok h = h
  handle-IsSound (Actions.type_draft_model t) a ui ok h = h
  handle-IsSound (Actions.type_model t) a ui ok h =
      type_model-IsSound idb prefers_dark ui.screen t h
  handle-IsSound (Actions.type_system_prompt t) a ui ok h =
      update-IsSound idb prefers_dark ui.screen _ refl refl h
  handle-IsSound (Actions.type_temperature t) a ui ok h =
      update-IsSound idb prefers_dark ui.screen _ refl refl h
  handle-IsSound (Actions.type_max_tokens t) a ui ok h =
      update-IsSound idb prefers_dark ui.screen _ refl refl h
  handle-IsSound (Actions.choose_file t) a ui ok h = if_either Holds (is_empty t) ui _ h (
      do_import-IsSound idb prefers_dark json a.parser_message ui.screen ui.modal (a.read_file t) ok
        h)
  handle-IsSound (Actions.check_streaming b) a ui ok h =
      update-IsSound idb prefers_dark ui.screen _ refl refl h
  handle-IsSound (Actions.check_send_on_enter b) a ui ok h =
      update-IsSound idb prefers_dark ui.screen _ refl refl h
  handle-IsSound (Actions.press_theme t) a ui ok h =
      update-IsSound idb prefers_dark ui.screen _ refl refl h
