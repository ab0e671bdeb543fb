-- ===== src/Ui/Session.antt =====
-- A session: the page opens on a database, frontend/src/App.tsx reads both stores, and then the
-- user acts and the effects run, in any order.
use llm_router_ui.Prelude.{refl, Bool, true, false, if◌then◌else◌, Option, none, some, []}
use llm_router_ui.Text.{Text}
use llm_router_ui.Idb.{ObjectStore}
use llm_router_ui.Db.{Db, load_settings}
use llm_router_ui.Db.Keys
use llm_router_ui.Db.Backup.{Json}
use llm_router_ui.Api.{Platform, Response, Result}
use llm_router_ui.Api.Request.{Request}
use llm_router_ui.Settings
use llm_router_ui.Settings.{initial}
use llm_router_ui.Settings.Active.{HasActive}
use llm_router_ui.Settings.Invariant.{hydrate-IsInStep}
use llm_router_ui.Chats
use llm_router_ui.Chats.{World}
use llm_router_ui.Chats.Mirror.History
use llm_router_ui.Chats.Mirror.History.{page, Reach-IsMirror}
use llm_router_ui.Chats.Mirror.Actions.{hydrate-IsMirror}
use llm_router_ui.Screen.{Screen, boot, prompt_settings, set_settings_open}
use llm_router_ui.Composer.{empty_composer, load_models, pointer_down}
use llm_router_ui.SettingsModal.{empty_modal}
use llm_router_ui.Ui.{Answers, Ui, handle}
use llm_router_ui.Ui.Sound.{IsSound}
use llm_router_ui.Ui.Handled.{Allowed, handle-IsSound}
use llm_router_ui.View.Actions.{Action}

module _ (idb : ObjectStore) (prefers_dark : Bool) (platform : Platform) (json : Json) where
  -- the page as it opens, before the stores are read
  abbrev pub blank_screen : Db idb → Screen idb prefers_dark
  blank_screen db = record {
    world = page idb platform db;
    preferences = initial;
    dark = prefers_dark;
    sidebar_open = false;
    settings_open = false;
  }

  unfoldable pub opened : Db idb → Ui idb prefers_dark platform json
  opened db = record {
    screen = boot idb prefers_dark (blank_screen db);
    editing = record { editing_id = none; draft = [] };
    composer = empty_composer;
    modal = empty_modal;
  }

  pub data Session (db : Db idb) : Ui idb prefers_dark platform json → Type 0 where
    opens : Session db (opened db)
    acts :
        {ui : Ui idb prefers_dark platform json} (action : Action)
        (a : Answers idb prefers_dark platform json)
        → Session db ui
        → Allowed idb prefers_dark platform json action a ui
        → Session db (handle idb prefers_dark platform json action a ui)
    -- the effects of App and of the composer
    prompts :
        {ui : Ui idb prefers_dark platform json}
        → Session db ui
        → Session db (record ui { screen = prompt_settings idb prefers_dark ui.screen })
    loads :
        {ui : Ui idb prefers_dark platform json} (fetch : Request → Result Response)
        → Session db ui
        → Session db (record ui {
          composer = load_models platform fetch ui.preferences.settings ui.composer;
        })
    -- the pointer is pressed, inside of the model picker or not
    points :
        {ui : Ui idb prefers_dark platform json} (inside : Bool)
        → Session db ui
        → Session db (record ui { composer = pointer_down inside ui.composer })

  boot-IsSound :
      (db : Db idb)
      → Keys.Reach idb db
      → HasActive (load_settings idb db)
      → IsSound idb prefers_dark (boot idb prefers_dark (blank_screen db))
  unfolding boot Settings.hydrate Chats.hydrate
  boot-IsSound db r active = record {
    mirror =
        hydrate-IsMirror idb (page idb platform db) (Reach-IsMirror idb platform (History.opens r));
    rests = record { streaming = refl; streaming_id = refl; controller = refl };
    in_step =
        hydrate-IsInStep idb prefers_dark (record { store = initial; dark = prefers_dark; db = db })
          active;
  }

  prompted-IsSound :
      (s : Screen idb prefers_dark) (id : Option Text) (loaded : Bool)
      → IsSound idb prefers_dark s
      → IsSound idb prefers_dark (elim id [
        | none ↦ if loaded then set_settings_open idb prefers_dark s true else s
        | some k ↦ s
      ])
  prompted-IsSound s none true h = h
  prompted-IsSound s none false h = h
  prompted-IsSound s (some k) loaded h = h

  prompt_settings-IsSound :
      (s : Screen idb prefers_dark)
      → IsSound idb prefers_dark s
      → IsSound idb prefers_dark (prompt_settings idb prefers_dark s)
  unfolding prompt_settings
  prompt_settings-IsSound s h =
      prompted-IsSound s s.preferences.settings.active_provider_id s.preferences.loaded h

  -- Throughout a session of actions that run one after the other, on a database that db.ts has
  -- filled and whose active id, if there is one, is that of a listed provider: the messages shown
  -- are, as a set, those stored for the active chat, up to an error of the empty text, which is not
  -- shown; nothing streams between two actions; and the settings and the theme shown are those that
  -- a reload would load. What an action needs is that ids are fresh, that a provider which is chosen
  -- is listed, and that a backup is imported while no chat is open. The system's preference for a
  -- dark theme is fixed for the session.
  pub Session-IsSound :
      (db : Db idb) {ui : Ui idb prefers_dark platform json}
      → Keys.Reach idb db
      → HasActive (load_settings idb db)
      → Session db ui
      → IsSound idb prefers_dark ui.screen
  unfolding opened
  Session-IsSound db r active opens = boot-IsSound db r active
  Session-IsSound db r active (acts {ui} action a s ok) =
      handle-IsSound idb prefers_dark platform json action a ui ok (Session-IsSound db r active s)
  Session-IsSound db r active (prompts {ui} s) =
      prompt_settings-IsSound ui.screen (Session-IsSound db r active s)
  Session-IsSound db r active (loads {ui} fetch s) = Session-IsSound db r active s
  Session-IsSound db r active (points {ui} inside s) = Session-IsSound db r active s
