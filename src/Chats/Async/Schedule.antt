-- ===== src/Chats/Async/Schedule.antt =====
-- Every history of whole actions of frontend/src/store/useChats.ts is a run of the page whose calls
-- may overlap.
use llm_router_ui.Prelude.{
  ℕ, ◌≡◌, refl, subst, Option, none, some, [], ◌∷◌, false, inl, inr, Option-cases, find,
}
use llm_router_ui.Text.{Text, same, is_empty}
use llm_router_ui.Types.{Chat, default_settings}
use llm_router_ui.Idb.{ObjectStore}
use llm_router_ui.Db.{Db, list_chats, list_messages, delete_chat, save_chat}
use llm_router_ui.Api.{Platform}
use llm_router_ui.Chats.{World, hydrate, select_chat, remove_chat, rename_chat}
use llm_router_ui.Chats.Run.{Ticks}
use llm_router_ui.Chats.Send.{chosen_chat}
use llm_router_ui.Chats.Mirror.History
use llm_router_ui.Chats.Async.{
  is_reading, Task, listing, selecting, removing, renaming, call_hydrate, call_select, call_remove,
  call_rename, call_send, call_regenerate, resume,
}
use llm_router_ui.Chats.Async.System.{
  System, Call, Steps, here, resumes, opening_page, hydrates, selects, opens_new, removes, renames,
  sends, regenerates, stops, clears_error,
}
use llm_router_ui.Chats.Async.Sequential.{send-alone, regenerate-alone}
use llm_router_ui.Chats.Async.Solo.{solo, solo-Move, solo-Call, Call-Steps}

module _ (idb : ObjectStore) where
  abbrev still : Ticks
  still = record { assistant_id = []; started = 0; touched = 0 }

  -- a call with one await
  short-Call :
      {s : System idb} (w w' v : World idb) (t : Task)
      → Call idb w (w', some t)
      → is_reading t ≡ false
      → resume idb default_settings w' t still ≡ (v, none)
      → Steps idb s (solo idb (w, none))
      → Steps idb s (solo idb (v, none))
  short-Call {s} w w' v t c waits e r =
      subst (λ m. Steps idb s (solo idb m)) e
        (solo-Move idb w' t _ (solo-Call idb w (w', some t) r c)
          (resumes default_settings t still waits))

  hydrate-Steps :
      {s : System idb} (w : World idb)
      → Steps idb s (solo idb (w, none))
      → Steps idb s (solo idb (hydrate idb w, none))
  unfolding hydrate call_hydrate resume
  hydrate-Steps w r =
      short-Call w w (hydrate idb w) (listing (list_chats idb w.db)) hydrates refl refl r

  select_chat-Steps :
      {s : System idb} (w : World idb) (c : Option Text)
      → Steps idb s (solo idb (w, none))
      → Steps idb s (solo idb (select_chat idb w c, none))
  unfolding select_chat call_select resume chosen_chat is_empty
  select_chat-Steps w none r = solo-Call idb w _ r (selects none)
  select_chat-Steps w (some []) r = solo-Call idb w _ r (selects (some []))
  select_chat-Steps w (some (k ∷ c)) r =
      short-Call w w (select_chat idb w (some (k ∷ c)))
        (selecting (k ∷ c) (list_messages idb w.db (k ∷ c))) (selects (some (k ∷ c))) refl refl r

  remove_chat-Steps :
      {s : System idb} (w : World idb) (id : Text)
      → Steps idb s (solo idb (w, none))
      → Steps idb s (solo idb (remove_chat idb w id, none))
  unfolding remove_chat call_remove resume
  remove_chat-Steps w id r =
      short-Call w (record w { db = delete_chat idb w.db id }) (remove_chat idb w id) (removing id)
        (removes id) refl refl r

  rename_found :
      (w : World idb) (id title : Text) (now : ℕ) (chat : Chat)
      → find (λ c. same c.id id) w.chats ≡ some chat
      → (let updated = record chat { title = title; updated_at = now } in
          call_rename idb w id title now
          ≡ (record w { db = save_chat idb w.db updated }, some (renaming id updated)))
  unfolding call_rename
  rename_found w id title now chat e = rw (call_rename, e) refl

  rename_chat-Steps :
      {s : System idb} (w : World idb) (id title : Text) (now : ℕ)
      → Steps idb s (solo idb (w, none))
      → Steps idb s (solo idb (rename_chat idb w id title now, none))
  unfolding rename_chat call_rename resume
  rename_chat-Steps {s} w id title now r = elim (Option-cases (find (λ c. same c.id id) w.chats)) [
    | inl e ↦ rw (rename_chat, e) r
    | inr (chat, e) ↦
        let updated = record chat { title = title; updated_at = now } in
        rw (rename_chat, e)
          (short-Call w (record w { db = save_chat idb w.db updated }) _ (renaming id updated)
            (subst (Call idb w) (rename_found w id title now chat e) (renames id title now)) refl
            refl r)
  ]

  module _ (platform : Platform) where
    Step-Steps :
        {s : System idb} {v w : World idb}
        → History.Step idb platform v w
        → Steps idb s (solo idb (v, none))
        → Steps idb s (solo idb (w, none))
    Step-Steps {s} {v} History.hydrates r = hydrate-Steps v r
    Step-Steps {s} {v} (History.selects c) r = select_chat-Steps v c r
    Step-Steps {s} {v} History.opens_new r = solo-Call idb v _ r opens_new
    Step-Steps {s} {v} (History.removes c) r = remove_chat-Steps v c r
    Step-Steps {s} {v} (History.renames c title now) r = rename_chat-Steps v c title now r
    Step-Steps {s} {v} (History.sends fetch settings text ticks run_ticks fresh) r =
        Call-Steps idb platform fetch settings v _ 5 run_ticks (call_send idb settings v text ticks)
          (sends settings text ticks)
          (send-alone idb platform fetch settings v text ticks run_ticks) r
    Step-Steps {s} {v} (History.regenerates fetch settings ticks unused) r =
        Call-Steps idb platform fetch settings v _ 4 ticks (call_regenerate idb settings v ticks)
          (regenerates settings ticks) (regenerate-alone idb platform fetch settings v ticks) r
    Step-Steps {s} {v} History.stops r = solo-Call idb v _ r stops
    Step-Steps {s} {v} History.clears_error r = solo-Call idb v _ r clears_error

    -- Whatever world a history of whole actions reaches from the opening of the page, the page whose
    -- calls may overlap reaches too, with no call under way.
    pub Reach-Steps :
        {w : World idb}
        → History.Reach idb platform w
        → (db : Db idb) × Steps idb (opening_page idb db) (record { world = w; tasks = [] })
    Reach-Steps (History.opens {db} r) = (db, here)
    Reach-Steps (History.follows r s) =
        let before = Reach-Steps r in (before.0, Step-Steps s before.1)
