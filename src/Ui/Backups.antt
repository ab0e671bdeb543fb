-- ===== src/Ui/Backups.antt =====
-- A wipe and an import in frontend/src/components/SettingsModal.tsx keep what holds of the page.
use llm_router_ui.Prelude.{some, ◌≡◌, ◌⊎◌, refl, sym, ap, Bool, true, false, none, inl, inr}
use llm_router_ui.Text.{Text}
use llm_router_ui.Idb.{ObjectStore}
use llm_router_ui.Db.{Db}
use llm_router_ui.Db.Keys
use llm_router_ui.Db.Backup.{
  Json, Imported, import_data, put_fields, stored, imported, stopped, syntax_error, failed,
}
use llm_router_ui.Settings.{wipe}
use llm_router_ui.Settings.Invariant.{Step-IsInStep, wipes}
use llm_router_ui.Chats.{hydrate, select_chat}
use llm_router_ui.Chats.Mirror.Actions.{hydrate-IsMirror}
use llm_router_ui.Chats.Send.{chosen_chat}
use llm_router_ui.Screen.{Screen}
use llm_router_ui.SettingsModal.{ModalState}
use llm_router_ui.SettingsModal.Actions.{do_import, do_wipe}
use llm_router_ui.Ui.Sound.{stored_page, Sound, IsSound, moved-IsInStep}

Imported-cases :
    {A : Type 0} (r : Imported A)
    → ((a : A) × (r ≡ imported a))
      ⊎ (((a : A) × (m : Text) × (r ≡ stopped a m))
          ⊎ ((r ≡ syntax_error) ⊎ ((m : Text) × (r ≡ failed m))))
Imported-cases (imported a) = inl (a, refl)
Imported-cases (stopped a m) = inr (inl (a, m, refl))
Imported-cases syntax_error = inr (inr (inl refl))
Imported-cases (failed m) = inr (inr (inr (m, refl)))

module _ (idb : ObjectStore) (prefers_dark : Bool) where
  -- all that the chat store showed is gone from the database and from the page
  pub wiped-IsSound :
      (s : Screen idb prefers_dark)
      → IsSound idb prefers_dark s
      → (let page =
            wipe idb prefers_dark (stored_page idb prefers_dark s.world s.preferences s.dark) in
          Sound idb prefers_dark
            (select_chat idb (hydrate idb (record s.world { db = page.db })) none)
            page.store
            page.dark)
  unfolding wipe select_chat hydrate chosen_chat
  wiped-IsSound s h = record {
    mirror = record {
      keyed = Keys.Step-IsKeyed idb Keys.clears h.mirror.keyed;
      blank = λ e. refl;
      active = λ c e. absurd (cc);
    };
    rests = record {
      streaming = h.rests.streaming;
      streaming_id = h.rests.streaming_id;
      controller = h.rests.controller;
    };
    in_step = Step-IsInStep idb prefers_dark wipes h.in_step;
  }

  pub do_wipe-IsSound :
      (confirmed : Bool) (s : Screen idb prefers_dark) (m : ModalState)
      → IsSound idb prefers_dark s
      → IsSound idb prefers_dark (do_wipe idb prefers_dark confirmed (s, m)).0
  unfolding do_wipe
  do_wipe-IsSound false s m h = h
  do_wipe-IsSound true s m h = wiped-IsSound s h

  imported-settings :
      (json : Json) (db next : Db idb) (document : json.Document)
      → stored (import_data idb json db document) ≡ some next
      → db.settings ≡ next.settings
  unfolding put_fields
  imported-settings json db next document e =
      let (chats, messages, q) = Keys.imported_fields idb json db next document e in
      ap (λ (d : Db idb). d.settings) (sym q)

  module _ (json : Json) (s : Screen idb prefers_dark) (document : json.Document) (db : Db idb)
      (e : stored (import_data idb json s.world.db document) ≡ some db)
      (closed : chosen_chat s.world.active_chat_id ≡ none) (h : IsSound idb prefers_dark s) where
    -- a backup is put into the database while no chat is open
    put-IsSound : Sound idb prefers_dark (record s.world { db = db }) s.preferences s.dark
    put-IsSound = record {
      mirror = record {
        keyed = Keys.Step-IsKeyed idb (Keys.imports json document e) h.mirror.keyed;
        blank = h.mirror.blank;
        active = λ c f. absurd (cc);
      };
      rests = record {
        streaming = h.rests.streaming;
        streaming_id = h.rests.streaming_id;
        controller = h.rests.controller;
      };
      in_step =
          moved-IsInStep idb prefers_dark s.world (record s.world { db = db }) s.preferences s.dark
            (imported-settings json s.world.db db document e) h.in_step;
    }

    -- and the chats are read again
    read-IsSound :
        Sound idb prefers_dark (hydrate idb (record s.world { db = db })) s.preferences s.dark
    unfolding hydrate
    read-IsSound = record {
      mirror = hydrate-IsMirror idb (record s.world { db = db }) put-IsSound.mirror;
      rests = record {
        streaming = h.rests.streaming;
        streaming_id = h.rests.streaming_id;
        controller = h.rests.controller;
      };
      in_step = put-IsSound.in_step;
    }

  pub do_import-IsSound :
      (json : Json) (parser_message : Text) (s : Screen idb prefers_dark) (m : ModalState)
      (document : json.Document)
      → chosen_chat s.world.active_chat_id ≡ none
      → IsSound idb prefers_dark s
      → IsSound idb prefers_dark (do_import idb prefers_dark json parser_message (s, m) document).0
  unfolding do_import
  do_import-IsSound json parser_message s m document closed h =
      elim (Imported-cases (import_data idb json s.world.db document)) [
        | inl (db, e) ↦ rw (do_import, e) (read-IsSound json s document db (ap stored e) closed h)
        | inr (inl (db, message, e)) ↦
            rw (do_import, e) (put-IsSound json s document db (ap stored e) closed h)
        | inr (inr (inl e)) ↦ rw (do_import, e) h
        | inr (inr (inr (message, e))) ↦ rw (do_import, e) h
      ]
