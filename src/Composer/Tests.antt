-- ===== src/Composer/Tests.antt =====
-- The composer at a concrete screen.
use llm_router_ui.Prelude.{◌≡◌, ◌⊎◌, none, some, false, true, ◌||◌, [], if◌then◌else◌}
use llm_router_ui.Text.{codes, is_empty, trim}
use llm_router_ui.Types.{Provider}
use llm_router_ui.Idb.Assoc.{assoc_store}
use llm_router_ui.Settings.{active_provider}
use llm_router_ui.Chats.Run.{Ticks}
use llm_router_ui.Chats.Send.{SendTicks, send}
use llm_router_ui.Composer.{Composing, ComposerState, empty_composer, submit, choose_model}
use llm_router_ui.Composer.Submit.{submit-send, choose_model_exact}
use llm_router_ui.Samples.{echo, answering, screen}

abbrev typed : ComposerState
typed = record empty_composer { text = codes " And then? " }

abbrev send_ticks : SendTicks
send_ticks = record { chat_id = codes "c9"; user_id = codes "m8"; now = 40 }

abbrev ticks : Ticks
ticks = record { assistant_id = codes "m9"; started = 41; touched = 42 }

submit-send_example :
    (let after = submit assoc_store true echo answering (screen, typed) send_ticks ticks in
      (after.0.world
        ≡ send assoc_store echo answering screen.preferences.settings screen.world typed.text
            send_ticks ticks)
      × (after.1.text
          ≡ (if is_empty (trim typed.text) || screen.world.streaming then typed.text else [])))
submit-send_example = submit-send assoc_store true echo answering screen typed send_ticks ticks

abbrev chosen : Composing assoc_store true
chosen = choose_model assoc_store true (screen, typed) (codes "gpt")

choose_model_exact_example :
    ((active_provider screen.preferences.settings ≡ none) × (chosen ≡ (screen, typed)))
    ⊎ ((p : Provider) × (active_provider screen.preferences.settings ≡ some p)
        × (active_provider chosen.0.preferences.settings ≡ some (record p { model = codes "gpt" }))
        × (chosen.0.world.store ≡ screen.world.store)
        × (chosen.1 ≡ record typed { picker_open = false; query = [] }))
choose_model_exact_example = choose_model_exact assoc_store true screen typed (codes "gpt")
