-- ===== src/Chats/Async/Tests.antt =====
-- Calls that overlap on a page with two chats, and a page that comes to rest.
use llm_router_ui.Prelude.{◌≡◌, inl, ap, arith, ◌≤◌, ◌<◌, ◌+◌, refl, some, [], ◌∷◌, ◌++◌, find}
use llm_router_ui.Text.{Text, codes, same, trim, is_empty}
use llm_router_ui.Types.{Message, default_settings}
use llm_router_ui.Idb.Assoc.{assoc_store}
use llm_router_ui.Settings.{active_provider}
use llm_router_ui.Api.{threw, abort_error}
use llm_router_ui.Chats.Run.{Run, Ticks}
use llm_router_ui.Chats.{World}
use llm_router_ui.Chats.Send.{SendTicks, chosen_chat, stop, send, regenerate}
use llm_router_ui.Chats.Async.{
  Task, Next, over, reading, opening, chat_of, call_regenerate, call_send, call_select, resume,
}
use llm_router_ui.Chats.Async.System.{
  task_list, System, calls, Steps, here, next, opening_page, sends, selects, resumes,
}
use llm_router_ui.Chats.Async.Marks.{Marked, Steps-Marked}
use llm_router_ui.Chats.Async.Rest.{total, Drain, drained, drains, Drain-bounded}
use llm_router_ui.Chats.Async.Quiet.{Course, AtRest, settled, settled-AtRest}
use llm_router_ui.Chats.Async.Alone.{alone}
use llm_router_ui.Chats.Async.Sequential.{call-alone}
use llm_router_ui.Chats.Async.Overlap.{kept_before}
use llm_router_ui.Samples.{sample_db, echo, answering, screen}

abbrev ticks : Ticks
ticks = record { assistant_id = codes "m9"; started = 41; touched = 42 }

abbrev ids : SendTicks
ids = record { chat_id = codes "c9"; user_id = codes "m8"; now = 40 }

abbrev opened : System assoc_store
opened = opening_page assoc_store sample_db

abbrev sent : Next assoc_store
sent = call_send assoc_store default_settings opened.world (codes "Hi") ids

abbrev after_sent : System assoc_store
after_sent = record { world = sent.0; tasks = [] ++ task_list sent.1 }

-- another chat is selected before the first message of a new one is saved
abbrev selected : Next assoc_store
selected = call_select assoc_store after_sent.world (some (codes "c2"))

abbrev after_selected : System assoc_store
after_selected = record { world = selected.0; tasks = after_sent.tasks ++ task_list selected.1 }

after_selected-Steps : Steps assoc_store opened after_selected
after_selected-Steps =
    next (next here (calls (sends default_settings (codes "Hi") ids)))
      (calls (selects (some (codes "c2"))))

Steps-Marked_example : Marked assoc_store after_selected.world after_selected.tasks
Steps-Marked_example = Steps-Marked assoc_store sample_db after_selected-Steps

abbrev the_opening : Task
the_opening = opening (chat_of assoc_store (codes "Hi") ids) (codes "Hi") (codes "auto") ids

after_sent_waits : after_sent.tasks ≡ the_opening ∷ []
unfolding call_send active_provider same find trim is_empty chosen_chat
after_sent_waits = refl

drained_one : System assoc_store
drained_one = record {
  world = (resume assoc_store default_settings after_sent.world the_opening ticks).0;
  tasks =
      []
      ++ task_list (resume assoc_store default_settings after_sent.world the_opening ticks).1
      ++ [];
}

drained_one-Drain : Drain assoc_store after_sent 1 drained_one
unfolding drained_one
drained_one-Drain =
    drains [] the_opening [] drained after_sent_waits
      (resumes default_settings the_opening ticks refl) refl

Drain-bounded_example : 1 + total drained_one.tasks ≤ total after_sent.tasks
Drain-bounded_example = Drain-bounded assoc_store drained_one-Drain

-- the settings and the clock stand still, and the stream of any read breaks after what has come
abbrev breaking : Course
breaking = record {
  place = λ n. n;
  settings = λ n. default_settings;
  ticks = λ n. ticks;
  end = λ n run. inl (threw abort_error);
}

settled-AtRest_example :
    Steps assoc_store after_sent (settled assoc_store breaking 5 0 after_sent)
    × AtRest assoc_store (settled assoc_store breaking 5 0 after_sent)
settled-AtRest_example =
    settled-AtRest assoc_store breaking sample_db 5
      (next here (calls (sends default_settings (codes "Hi") ids)))
      (omega (arith, ap total after_sent_waits))

call-alone_example :
    (alone assoc_store echo answering default_settings 5 ticks
        (call_send assoc_store default_settings screen.world (codes "And then?") ids)
      ≡ over assoc_store (
          send assoc_store echo answering default_settings screen.world
            (codes "And then?")
            ids
            ticks))
    × (alone assoc_store echo answering default_settings 4 ticks
          (call_regenerate assoc_store default_settings screen.world ticks)
        ≡ over assoc_store
            (regenerate assoc_store echo answering default_settings screen.world ticks))
call-alone_example =
    call-alone assoc_store echo answering default_settings screen.world (codes "And then?") ids
      ticks

-- two completions of the chat `c`, of which only the second can be stopped
abbrev RunsTwice : World assoc_store → Text → Message → Type 0
RunsTwice w c last =
    (t : System assoc_store) × (first : Run) × (second : Run) × Steps assoc_store
      (record { world = w; tasks = [] }) t
    × (t.tasks ≡ reading first ∷ reading second ∷ [])
    × (first.chat_id ≡ c)
    × (second.chat_id ≡ c)
    × (first.own_controller < second.own_controller)
    × (t.world.messages ≡ kept_before w.messages last ++ second.assistant ∷ [])
    × ((stop assoc_store t.world).aborted ≡ second.own_controller ∷ w.aborted)
