-- ===== src/Samples.antt =====
-- Concrete inputs for the witnesses and tests: a small database, a platform whose stream payloads
-- are their own tokens, and settings.
use llm_router_ui.Prelude.{refl, true, false, none, some, [], ◌∷◌, ◌++◌}
use llm_router_ui.Text.{codes}
use llm_router_ui.Types.{Role, Message, Chat, default_settings}
use llm_router_ui.Idb.Assoc.{assoc_store}
use llm_router_ui.Db.{Db, fresh, save_chat, save_message, save_settings}
use llm_router_ui.Db.Keys.{Reach, opened, follows, saves_chat, saves_message, saves_settings}
use llm_router_ui.Db.Backup.{Json, Parsed, fields}
use llm_router_ui.Api.{Platform, Result, returned, Response, Body, plain}
use llm_router_ui.Chats.{empty_state}
use llm_router_ui.Screen.{Screen}
use llm_router_ui.Api.Request.{Request}

abbrev pub trip : Chat
trip = record {
  id = codes "c1";
  title = codes "Trip";
  created_at = 10;
  updated_at = 30;
  model = none;
  system_prompt = none;
}

abbrev pub work : Chat
work = record trip { id = codes "c2"; title = codes "Work"; updated_at = 20 }

abbrev pub question : Message
question = record {
  id = codes "m1";
  chat_id = codes "c1";
  role = Role.user;
  content = codes "Where to?";
  created_at = 11;
  error = none;
  model = none;
}

abbrev pub reply : Message
reply = record {
  id = codes "m2";
  chat_id = codes "c1";
  role = Role.assistant;
  content = codes "Lisbon.";
  created_at = 12;
  error = none;
  model = some (codes "auto");
}

abbrev pub two_chats : Db assoc_store
two_chats = save_chat assoc_store (save_chat assoc_store (fresh assoc_store) work) trip

abbrev pub sample_db : Db assoc_store
sample_db =
    save_settings assoc_store
      (save_message assoc_store (save_message assoc_store two_chats question) reply)
      default_settings

pub sample_db-Reach : Reach assoc_store sample_db
sample_db-Reach =
    follows
      (follows
        (follows (follows (follows opened (saves_chat work)) (saves_chat trip))
          (saves_message question))
        (saves_message reply))
      (saves_settings default_settings)

-- documents that are what they read back as
abbrev pub plain_json : Json
plain_json = record {
  Document = Parsed;
  stringify = λ b. fields (some b.chats) (some b.messages);
  parse = some;
  parse-stringify = λ b. refl;
}

-- every payload is a token, every error body an object with an empty error, bytes are characters
abbrev pub echo : Platform
echo = record {
  parse_error_body = λ t. some (record { error = plain []; message = none });
  parse_delta = λ t. some (record { model = none; content = some t });
  parse_models = λ t. returned none;
  parse_response = λ t. returned (record { model = some (codes "gpt"); content = some t });
  Decoder = Unit {0};
  start = tt;
  decode = λ d bytes. (bytes, d);
  decode-nil = λ d. refl;
  decode-append = λ d a b. refl;
}

-- a response of two frames, whose first is cut in the middle
abbrev pub greeting : Body
greeting = record {
  chunks = codes "data: He" ∷ (codes "llo\n" ++ codes "\ndata: you\n\ndata: [DONE]\n\n") ∷ [];
  broken = none;
}

abbrev pub ok_response : Response
ok_response = record { status = 200; text = returned (codes "Hello"); body = some greeting }

abbrev pub answering : Request → Result Response
answering request = returned ok_response

abbrev pub failing : Request → Result Response
failing request = returned (record ok_response { status = 503 })

-- a page with two chats and two messages, on which nothing runs
abbrev pub screen : Screen assoc_store true
screen = record {
  world = record {
    store = record empty_state {
      chats = trip ∷ work ∷ [];
      messages = question ∷ reply ∷ [];
      active_chat_id = some (codes "c1");
    };
    controller = none;
    aborted = [];
    next_controller = 0;
    db = sample_db;
  };
  preferences = record { settings = default_settings; loaded = true };
  dark = true;
  sidebar_open = false;
  settings_open = true;
}
