-- ===== src/Ui/Tests.antt =====
-- A session on an empty database: a message is typed and sent, and the settings are changed.
use llm_router_ui.Prelude.{refl, true, none}
use llm_router_ui.Text.{codes, same, is_empty}
use llm_router_ui.Types.{Theme}
use llm_router_ui.Idb.Assoc.{assoc_store, lookup}
use llm_router_ui.Db.{fresh, load_settings}
use llm_router_ui.Db.Keys
use llm_router_ui.Db.Backup.{Parsed, fields}
use llm_router_ui.Chats.Mirror.Sending.{IsFresh}
use llm_router_ui.Settings
use llm_router_ui.Settings.Active.{HasActive, default-HasActive}
use llm_router_ui.Chats
use llm_router_ui.Screen.{boot}
use llm_router_ui.Ui.{Answers, Ui, handle}
use llm_router_ui.Ui.Sound.{IsSound}
use llm_router_ui.Ui.Session.{opened, Session, opens, acts, Session-IsSound}
use llm_router_ui.View.Actions
use llm_router_ui.Samples.{echo, answering, plain_json}

-- a file with no chats and no messages
abbrev document : Parsed
document = fields none none

abbrev answers : Answers assoc_store true echo plain_json
answers = record {
  fetch = answering;
  send_ticks = record { chat_id = codes "c1"; user_id = codes "m1"; now = 40 };
  run_ticks = record { assistant_id = codes "m2"; started = 41; touched = 42 };
  provider_id = codes "p2";
  now = 50;
  hostname = λ t. none;
  confirmed = true;
  read_file = λ t. document;
  parser_message = codes "Unexpected token";
  number = λ t. 0;
  hundredths = λ t. 0;
}

abbrev typed : Ui assoc_store true echo plain_json
typed =
    handle assoc_store true echo plain_json (Actions.type_text (codes "Where to?")) answers
      (opened assoc_store true echo plain_json (fresh assoc_store))

abbrev sent : Ui assoc_store true echo plain_json
sent = handle assoc_store true echo plain_json Actions.press_send answers typed

abbrev darkened : Ui assoc_store true echo plain_json
darkened = handle assoc_store true echo plain_json (Actions.press_theme Theme.dark) answers sent

typed-IsFresh : IsFresh assoc_store typed.world answers.send_ticks answers.run_ticks
unfolding handle opened boot Settings.hydrate Chats.hydrate same lookup is_empty
typed-IsFresh = record {
  user = refl;
  assistant = refl;
  differ = refl;
  chat = refl;
  chat_unused = λ k s e. cc;
}

darkened-Session : Session assoc_store true echo plain_json (fresh assoc_store) darkened
darkened-Session =
    acts (Actions.press_theme Theme.dark) answers
      (acts Actions.press_send answers
        (acts (Actions.type_text (codes "Where to?")) answers opens tt) typed-IsFresh)
      tt

fresh-HasActive : HasActive (load_settings assoc_store (fresh assoc_store))
unfolding load_settings lookup same
fresh-HasActive = default-HasActive

Session-IsSound_example : IsSound assoc_store true darkened.screen
Session-IsSound_example =
    Session-IsSound assoc_store true echo plain_json (fresh assoc_store) Keys.opened fresh-HasActive
      darkened-Session
