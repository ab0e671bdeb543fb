-- ===== src/View/Actions.antt =====
-- The actions that the handlers of the components call, with what a handler closes over.
use llm_router_ui.Prelude.{Bool}
use llm_router_ui.Text.{Text}
use llm_router_ui.Types.{Chat, Provider, Theme, WebSearchEngine}
use llm_router_ui.Composer.{KeyEvent}
use llm_router_ui.SettingsModal.{Preset}

pub data Action : Type 0 where
  -- App.tsx
  open_sidebar close_sidebar open_settings close_settings dismiss_error : Action
  -- Sidebar.tsx
  press_new_chat press_settings : Action
  select press_delete rename_blur type_title : Text → Action
  rename_press : Text → KeyEvent → Action
  start_rename : Chat → Action
  -- ChatView.tsx and MessageBubble.tsx
  press_regenerate : Action
  copy : Text → Action
  -- Composer.tsx
  press_send press_stop press_picker press_web : Action
  type_text type_query choose_model : Text → Action
  press_key picker_press : KeyEvent → Action
  choose_engine : WebSearchEngine → Action
  -- SettingsModal.tsx
  press_add press_cancel press_save press_test press_export press_file press_wipe : Action
  press_load : Provider → Action
  press_preset : Preset → Action
  press_use press_remove : Text → Action
  type_name type_base_url type_api_key type_draft_model : Text → Action
  type_model type_system_prompt type_temperature type_max_tokens choose_file : Text → Action
  check_streaming check_send_on_enter : Bool → Action
  press_theme : Theme → Action
