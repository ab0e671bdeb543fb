-- ===== src/Chats/Async/System.antt =====
-- The page of frontend/src/store/useChats.ts with all its calls under way: any call may be made at
-- any time, and the tasks are resumed in any order.
use llm_router_ui.Prelude.{ℕ, false, ◌≡◌, Option, none, some, List, [], ◌∷◌, ◌++◌}
use llm_router_ui.Text.{Text}
use llm_router_ui.Types.{Settings}
use llm_router_ui.Idb.{ObjectStore}
use llm_router_ui.Db.{Db}
use llm_router_ui.Api.{Result}
use llm_router_ui.Api.Request.{Completion}
use llm_router_ui.Api.Stream.{Event}
use llm_router_ui.Chats.{World, empty_state, new_chat, clear_error}
use llm_router_ui.Chats.Run.{Run, Ticks, on_event}
use llm_router_ui.Chats.Send.{SendTicks, stop}
use llm_router_ui.Chats.Async.{
  is_reading, Task, reading, call_hydrate, call_select, call_remove, call_rename, call_send,
  call_regenerate, end_read, end_fetch, resume,
}

abbrev pub task_list : Option Task → List Task
task_list none = []
task_list (some t) = t ∷ []

module _ (idb : ObjectStore) where
  pub record System : Type 0 where
    pub world : World idb
    pub tasks : List Task

  -- a call of the page, to its first await
  pub data Call (w : World idb) : World idb × Option Task → Type 0 where
    hydrates : Call w (call_hydrate idb w)
    selects : (c : Option Text) → Call w (call_select idb w c)
    opens_new : Call w (new_chat idb w, none)
    removes : (id : Text) → Call w (call_remove idb w id)
    renames : (id title : Text) (now : ℕ) → Call w (call_rename idb w id title now)
    sends :
        (settings : Settings) (text : Text) (ticks : SendTicks)
        → Call w (call_send idb settings w text ticks)
    regenerates :
        (settings : Settings) (ticks : Ticks) → Call w (call_regenerate idb settings w ticks)
    stops : Call w (stop idb w, none)
    clears_error : Call w (clear_error idb w, none)

  -- what a task does when it goes on: what it waited for is there, the stream has reported
  -- something, or the network has answered
  pub data Move (w : World idb) : Task → World idb × Option Task → Type 0 where
    resumes :
        (settings : Settings) (t : Task) (ticks : Ticks)
        → is_reading t ≡ false
        → Move w t (resume idb settings w t ticks)
    reports :
        (run : Run) (e : Event)
        → Move w
            (reading run)
            ((on_event idb (w, run) e).0, some (reading (on_event idb (w, run) e).1))
    ends_read :
        (run : Run) (result : Result Text) → Move w (reading run) (end_read idb w run result)
    ends_fetch :
        (run : Run) (result : Result Completion) → Move w (reading run) (end_fetch idb w run result)

  pub data Step (s : System) : System → Type 0 where
    calls :
        {n : World idb × Option Task}
        → Call s.world n
        → Step s (record { world = n.0; tasks = s.tasks ++ task_list n.1 })
    moves :
        (before : List Task) (t : Task) (after : List Task) {n : World idb × Option Task}
        → s.tasks ≡ before ++ t ∷ after
        → Move s.world t n
        → Step s (record { world = n.0; tasks = before ++ task_list n.1 ++ after })

  pub data Steps (s : System) : System → Type 0 where
    here : Steps s s
    next : {t u : System} → Steps s t → Step t u → Steps s u

  -- the page as it opens on a database
  abbrev pub opening_page : Db idb → System
  opening_page db = record {
    world = record {
      store = empty_state;
      controller = none;
      aborted = [];
      next_controller = 0;
      db = db;
    };
    tasks = [];
  }
