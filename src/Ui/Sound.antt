-- ===== src/Ui/Sound.antt =====
-- What holds of the page between two actions: both stores against their database.
use llm_router_ui.Prelude.{◌≡◌, refl, sym, ap, ◌∙◌, subst, Bool}
use llm_router_ui.Types.{Settings}
use llm_router_ui.Idb.{ObjectStore}
use llm_router_ui.Db.{Db, IsKeyed, load_settings, save_settings}
use llm_router_ui.Db.Keys
use llm_router_ui.Api.{Platform}
use llm_router_ui.Settings.{SettingsState, Page}
use llm_router_ui.Settings.Invariant
use llm_router_ui.Settings.Invariant.{IsInStep, Step-IsInStep}
use llm_router_ui.Chats.{World}
use llm_router_ui.Chats.Rests.{Rests, Step-Rests}
use llm_router_ui.Chats.Mirror.{IsMirror}
use llm_router_ui.Chats.Mirror.Actions.{Alike-IsMirror}
use llm_router_ui.Chats.Mirror.History
use llm_router_ui.Chats.Mirror.History.{Step-IsMirror}
use llm_router_ui.Chats.Frame.{Step-Frames}
use llm_router_ui.Screen.{Screen}

module _ (idb : ObjectStore) (prefers_dark : Bool) where
  abbrev pub stored_page : World idb → SettingsState → Bool → Page idb prefers_dark
  stored_page w p dark = record { store = p; dark = dark; db = w.db }

  pub record Sound (w : World idb) (p : SettingsState) (dark : Bool) : Type 0 where
    -- the shown messages are those stored for the active chat
    pub mirror : IsMirror idb w
    -- nothing streams
    pub rests : Rests idb w
    -- the settings shown are the stored ones, and so is the theme
    pub in_step : IsInStep idb prefers_dark (stored_page w p dark)

  abbrev pub IsSound : Screen idb prefers_dark → Type 0
  IsSound s = Sound s.world s.preferences s.dark

  load_settings_cong :
      (db later : Db idb)
      → db.settings ≡ later.settings
      → load_settings idb later ≡ load_settings idb db
  unfolding load_settings
  load_settings_cong db later e = rw e refl

  pub moved-IsInStep :
      (w v : World idb) (p : SettingsState) (dark : Bool)
      → w.db.settings ≡ v.db.settings
      → IsInStep idb prefers_dark (stored_page w p dark)
      → IsInStep idb prefers_dark (stored_page v p dark)
  moved-IsInStep w v p dark e h = record {
    saved = load_settings_cong w.db v.db e ∙ h.saved;
    active = h.active;
    shown = h.shown;
  }

  -- an action of the chat store
  pub stepped-Sound :
      (platform : Platform) {w v : World idb} {p : SettingsState} {dark : Bool}
      → History.Step idb platform w v
      → Sound w p dark
      → Sound v p dark
  stepped-Sound platform {w} {v} {p} {dark} s h = record {
    mirror = Step-IsMirror idb platform s h.mirror;
    rests = Step-Rests idb platform s h.rests;
    in_step = moved-IsInStep w v p dark (Step-Frames idb platform s) h.in_step;
  }

  -- an action of the settings store that saves settings
  pub saved-Sound :
      (w : World idb) (p : SettingsState) (dark : Bool) (q : Page idb prefers_dark)
      (saved : Settings)
      → Invariant.Step idb prefers_dark (stored_page w p dark) q
      → q.db ≡ save_settings idb w.db saved
      → Sound w p dark
      → Sound (record w { db = q.db }) q.store q.dark
  unfolding save_settings
  saved-Sound w p dark q saved s e h = record {
    mirror =
        Alike-IsMirror idb w _ (refl, refl, sym (ap (λ db. db.messages) e))
          (subst (IsKeyed idb) (sym e)
            (Keys.Step-IsKeyed idb (Keys.saves_settings saved) h.mirror.keyed))
          h.mirror;
    rests = record {
      streaming = h.rests.streaming;
      streaming_id = h.rests.streaming_id;
      controller = h.rests.controller;
    };
    in_step = Step-IsInStep idb prefers_dark s h.in_step;
  }
