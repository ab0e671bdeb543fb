-- ===== src/Chats/Send.antt =====
-- `send`, `regenerate` and `stop` of frontend/src/store/useChats.ts.
use llm_router_ui.Prelude.{
  ℕ, Bool, true, false, ◌||◌, Option, none, some, [], ◌∷◌, ◌++◌, filter, find, reverse, ltb,
  if◌then◌else◌,
}
use llm_router_ui.Text.{Text, codes, is_empty, trim}
use llm_router_ui.Types.{Role, Message, Chat, Provider, Settings}
use llm_router_ui.Idb.{ObjectStore}
use llm_router_ui.Db.{save_chat, save_message, delete_messages_from}
use llm_router_ui.Settings.{active_provider}
use llm_router_ui.Api.{Platform, Response, Result}
use llm_router_ui.Api.Request.{Request}
use llm_router_ui.Utils.{derive_title}
use llm_router_ui.Chats.{World, set_store}
use llm_router_ui.Chats.Run.{Ticks, run_completion}

abbrev pub no_provider : Text
no_provider = codes "No provider configured. Open Settings to add one."

-- `if (!chatId)`: the id of the active chat, unless it is missing or empty
unfoldable pub chosen_chat : Option Text → Option Text
chosen_chat none = none
chosen_chat (some t) = if is_empty t then none else some t

unfoldable pub is_assistant : Role → Bool
is_assistant Role.assistant = true
is_assistant Role.system = false
is_assistant Role.user = false

-- the fresh ids and the time of one `send`
pub record SendTicks : Type 0 where
  pub chat_id : Text
  pub user_id : Text
  pub now : ℕ

module _ (idb : ObjectStore) where
  -- the chat of a first message, created as it is sent
  unfoldable pub open_chat : World idb → Text → SendTicks → World idb
  unfolding derive_title
  open_chat w content ticks =
      let chat : Chat = record {
        id = ticks.chat_id;
        title = derive_title content;
        created_at = ticks.now;
        updated_at = ticks.now;
        model = none;
        system_prompt = none;
      } in
      record w {
        store = record w.store { chats = chat ∷ w.chats; active_chat_id = some ticks.chat_id };
        db = save_chat idb w.db chat;
      }

  -- the world and the chat that a message goes to
  unfoldable pub target_chat : World idb → Text → SendTicks → World idb × Text
  unfolding open_chat chosen_chat
  target_chat w content ticks = elim (chosen_chat w.active_chat_id) [
    | none ↦ (open_chat w content ticks, ticks.chat_id)
    | some chat_id ↦ (w, chat_id)
  ]

  abbrev pub user_message : Text → Text → SendTicks → Message
  user_message chat_id content ticks = record {
    id = ticks.user_id;
    chat_id = chat_id;
    role = Role.user;
    content = content;
    created_at = ticks.now;
    error = none;
    model = none;
  }

  abbrev pub save_user_message : World idb → Message → World idb
  save_user_message w m = record w { db = save_message idb w.db m }

  abbrev pub show_user_message : World idb → Message → World idb
  show_user_message w m =
      set_store idb w (record w.store { messages = w.messages ++ m ∷ []; error = none })

  unfoldable pub add_user_message : World idb → Message → World idb
  add_user_message w m = show_user_message (save_user_message w m) m

  -- `controller?.abort()` and the reset of the flags
  unfoldable pub stop : World idb → World idb
  stop w = record w {
    store = record w.store { streaming = false; streaming_id = none };
    controller = none;
    aborted = elim w.controller [ none ↦ w.aborted | some c ↦ c ∷ w.aborted ];
  }

  -- the last assistant turn and all that is not older are dropped
  unfoldable pub drop_last_turn : World idb → Text → World idb
  unfolding is_assistant
  drop_last_turn w chat_id = elim (find (λ m. is_assistant m.role) (reverse w.messages)) [
    | none ↦ w
    | some last ↦ record w {
      store = record w.store {
        messages = filter (λ m. ltb m.created_at last.created_at) w.messages;
      };
      db = delete_messages_from idb w.db chat_id last.created_at;
    }
  ]

  module _ (platform : Platform) (fetch : Request → Result Response) (settings : Settings) where
    unfoldable pub deliver : World idb × Text → Text → Provider → SendTicks → Ticks → World idb
    unfolding add_user_message run_completion
    deliver (w, chat_id) content provider ticks run_ticks =
        run_completion idb platform fetch settings
          (add_user_message w (user_message chat_id content ticks)) chat_id provider.model run_ticks

    unfoldable pub send : World idb → Text → SendTicks → Ticks → World idb
    unfolding deliver target_chat trim
    send w text ticks run_ticks =
        let content = trim text in
        if is_empty content || w.streaming then w else elim (active_provider settings) [
          | none ↦ set_store idb w (record w.store { error = some no_provider })
          | some provider ↦ deliver (target_chat w content ticks) content provider ticks run_ticks
        ]

    unfoldable pub regenerate : World idb → Ticks → World idb
    unfolding drop_last_turn run_completion chosen_chat
    regenerate w run_ticks = elim (chosen_chat w.active_chat_id) [
      | none ↦ w
      | some chat_id ↦ if w.streaming then w else elim (active_provider settings) [
        | none ↦ set_store idb w (record w.store { error = some no_provider })
        | some provider ↦
            run_completion idb platform fetch settings (drop_last_turn w chat_id) chat_id
              provider.model run_ticks
      ]
    ]
