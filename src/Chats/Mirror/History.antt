-- ===== src/Chats/Mirror/History.antt =====
-- The chat store along any history of actions that run one after the other.
use llm_router_ui.Prelude.{◌≡◌, refl, Option, none, [], ℕ}
use llm_router_ui.Text.{Text}
use llm_router_ui.Types.{Settings}
use llm_router_ui.Idb.{ObjectStore}
use llm_router_ui.Db.{Db}
use llm_router_ui.Db.Keys
use llm_router_ui.Db.Keys.{Reach-IsKeyed}
use llm_router_ui.Api.{Platform, Response, Result}
use llm_router_ui.Api.Request.{Request}
use llm_router_ui.Chats.{
  World, empty_state, hydrate, select_chat, new_chat, remove_chat, rename_chat, clear_error,
}
use llm_router_ui.Chats.Run.{Ticks}
use llm_router_ui.Chats.Send.{chosen_chat, SendTicks, stop, send, regenerate}
use llm_router_ui.Chats.Mirror.{IsMirror}
use llm_router_ui.Chats.Mirror.Actions.{
  hydrate-IsMirror, select_chat-IsMirror, new_chat-IsMirror, remove_chat-IsMirror,
  rename_chat-IsMirror, clear_error-IsMirror, stop-IsMirror,
}
use llm_router_ui.Chats.Mirror.Completion.{regenerate-IsMirror}
use llm_router_ui.Chats.Mirror.Sending.{IsFresh, send-IsMirror}

module _ (idb : ObjectStore) (platform : Platform) where
  open idb use {get}

  -- the page as it opens on a database
  abbrev pub page : Db idb → World idb
  page db = record {
    store = empty_state;
    controller = none;
    aborted = [];
    next_controller = 0;
    db = db;
  }

  -- The actions of the store. The settings and the network of each are its own.
  pub data Step (w : World idb) : World idb → Type 0 where
    hydrates : Step w (hydrate idb w)
    selects : (c : Option Text) → Step w (select_chat idb w c)
    opens_new : Step w (new_chat idb w)
    removes : (c : Text) → Step w (remove_chat idb w c)
    renames : (c title : Text) (now : ℕ) → Step w (rename_chat idb w c title now)
    sends :
        (fetch : Request → Result Response) (settings : Settings) (text : Text) (ticks : SendTicks)
        (run_ticks : Ticks)
        → IsFresh idb w ticks run_ticks
        → Step w (send idb platform fetch settings w text ticks run_ticks)
    regenerates :
        (fetch : Request → Result Response) (settings : Settings) (ticks : Ticks)
        → get w.db.messages ticks.assistant_id ≡ none
        → Step w (regenerate idb platform fetch settings w ticks)
    stops : Step w (stop idb w)
    clears_error : Step w (clear_error idb w)

  pub data Reach : World idb → Type 1 where
    opens : {db : Db idb} → Keys.Reach idb db → Reach (page db)
    follows : {v w : World idb} → Reach v → Step v w → Reach w

  pub Step-IsMirror : {v w : World idb} → Step v w → IsMirror idb v → IsMirror idb w
  Step-IsMirror {v} hydrates h = hydrate-IsMirror idb v h
  Step-IsMirror {v} (selects c) h = select_chat-IsMirror idb v c h
  Step-IsMirror {v} opens_new h = new_chat-IsMirror idb v h
  Step-IsMirror {v} (removes c) h = remove_chat-IsMirror idb v c h
  Step-IsMirror {v} (renames c title now) h = rename_chat-IsMirror idb v c title now h
  Step-IsMirror {v} (sends fetch settings text ticks run_ticks fresh) h =
      send-IsMirror idb platform fetch settings v text ticks run_ticks fresh h
  Step-IsMirror {v} (regenerates fetch settings ticks unused) h =
      regenerate-IsMirror idb platform fetch settings v ticks h unused
  Step-IsMirror {v} stops h = stop-IsMirror idb v h
  Step-IsMirror {v} clears_error h = clear_error-IsMirror idb v h

  -- Along any history of actions that run one after the other, with fresh ids and whatever the
  -- network answers, the shown messages are, as a set, exactly those that are stored for the active
  -- chat, up to an error of the empty text, which is stored but not shown; and every chat and
  -- message is stored under its own id.
  pub Reach-IsMirror : {w : World idb} → Reach w → IsMirror idb w
  Reach-IsMirror (opens r) = record {
    keyed = Reach-IsKeyed idb r;
    blank = λ e. refl;
    active = λ c e. unfold chosen_chat in cc;
  }
  Reach-IsMirror (follows r s) = Step-IsMirror s (Reach-IsMirror r)
