-- ===== src/Chats/Async/Solo.antt =====
-- A call of frontend/src/store/useChats.ts that nothing comes between, as steps of the page whose
-- calls may overlap.
use llm_router_ui.Prelude.{
  ℕ, zero, suc, ◌≡◌, refl, subst, none, some, List, [], ◌∷◌, ◌++◌, Bool, true, false, inl, inr,
  Option-cases, if◌then◌else◌,
}
use llm_router_ui.Types.{Settings, Provider}
use llm_router_ui.Idb.{ObjectStore}
use llm_router_ui.Settings.{active_provider}
use llm_router_ui.Api.{Platform, Response, Result}
use llm_router_ui.Api.Request.{Request, fetch_completion}
use llm_router_ui.Api.Stream.{Event, stream_completion}
use llm_router_ui.Chats.{World}
use llm_router_ui.Chats.Run.{Run, Ticks, options_of, on_event, on_events}
use llm_router_ui.Chats.Async.{
  Task, Next, over, listing, selecting, removing, renaming, opening, asking, dropping, reading,
  saving, touching, failing, end_read, end_fetch,
}
use llm_router_ui.Chats.Async.System.{
  task_list, System, Call, Move, Steps, next, calls, moves, resumes, reports, ends_read, ends_fetch,
}
use llm_router_ui.Chats.Async.Alone.{hear, follow, alone}

module _ (idb : ObjectStore) where
  -- the page with one call under way, or none
  abbrev pub solo : Next idb → System idb
  solo n = record { world = n.0; tasks = task_list n.1 }

  solo_append : (n : Next idb) → record { world = n.0; tasks = task_list n.1 ++ [] } ≡ solo n
  solo_append (w, none) = refl
  solo_append (w, some t) = refl

  pub solo-Move :
      {s : System idb} (w : World idb) (t : Task) (n : Next idb)
      → Steps idb s (solo (w, some t))
      → Move idb w t n
      → Steps idb s (solo n)
  solo-Move {s} w t n r m = subst (Steps idb s) (solo_append n) (next r (moves [] t [] refl m))

  pub solo-Call :
      {s : System idb} (w : World idb) (n : Next idb)
      → Steps idb s (solo (w, none))
      → Call idb w n
      → Steps idb s (solo n)
  solo-Call w n r c = next r (calls c)

  events-Steps :
      {s : System idb} (w : World idb) (run : Run) (events : List Event)
      → Steps idb s (solo (w, some (reading run)))
      → (let read = on_events idb (w, run) events in
          Steps idb s (solo (read.0, some (reading read.1))))
  unfolding on_events
  events-Steps w run [] r = r
  events-Steps w run (e ∷ events) r =
      let read = on_event idb (w, run) e in
      events-Steps read.0 read.1 events
        (solo-Move w (reading run) (read.0, some (reading read.1)) r (reports run e))

  module _ (platform : Platform) (fetch : Request → Result Response) (settings : Settings) where
    either-Steps :
        {s : System idb} (b : Bool) (x y : Next idb)
        → Steps idb s (solo x)
        → Steps idb s (solo y)
        → Steps idb s (solo (if b then x else y))
    either-Steps true x y p q = p
    either-Steps false x y p q = q

    hear-Steps :
        {s : System idb} (w : World idb) (run : Run) (p : Provider)
        → Steps idb s (solo (w, some (reading run)))
        → Steps idb s (solo (hear idb platform fetch settings w run p))
    unfolding hear
    hear-Steps w run p r =
        let options = options_of settings run.routed_model run.assistant.id w.messages in
        let streaming = stream_completion platform fetch p options in
        let read = on_events idb (w, run) streaming.0 in
        let whole = fetch_completion platform fetch p options in
        either-Steps settings.streaming (end_read idb read.0 read.1 streaming.1)
          (end_fetch idb w run whole)
          (solo-Move read.0 (reading read.1) _ (events-Steps w run streaming.0 r)
            (ends_read read.1 streaming.1))
          (solo-Move w (reading run) _ r (ends_fetch run whole))

    follow-Steps :
        {s : System idb} (w : World idb) (t : Task) (ticks : Ticks)
        → Steps idb s (solo (w, some t))
        → Steps idb s (solo (follow idb platform fetch settings w t ticks))
    unfolding follow
    follow-Steps w (reading run) ticks r = elim (Option-cases (active_provider settings)) [
      | inl e ↦ rw (follow, e) r
      | inr (p, e) ↦ rw (follow, e) (hear-Steps w run p r)
    ]
    follow-Steps w (listing chats) ticks r =
        solo-Move w _ _ r (resumes settings (listing chats) ticks refl)
    follow-Steps w (selecting id ms) ticks r =
        solo-Move w _ _ r (resumes settings (selecting id ms) ticks refl)
    follow-Steps w (removing id) ticks r =
        solo-Move w _ _ r (resumes settings (removing id) ticks refl)
    follow-Steps w (renaming id chat) ticks r =
        solo-Move w _ _ r (resumes settings (renaming id chat) ticks refl)
    follow-Steps w (opening chat content model ids) ticks r =
        solo-Move w _ _ r (resumes settings (opening chat content model ids) ticks refl)
    follow-Steps w (asking m model) ticks r =
        solo-Move w _ _ r (resumes settings (asking m model) ticks refl)
    follow-Steps w (dropping id ms model) ticks r =
        solo-Move w _ _ r (resumes settings (dropping id ms model) ticks refl)
    follow-Steps w (saving run) ticks r =
        solo-Move w _ _ r (resumes settings (saving run) ticks refl)
    follow-Steps w (touching run chat) ticks r =
        solo-Move w _ _ r (resumes settings (touching run chat) ticks refl)
    follow-Steps w (failing run message) ticks r =
        solo-Move w _ _ r (resumes settings (failing run message) ticks refl)

    alone-Steps :
        {s : System idb} (k : ℕ) (ticks : Ticks) (n : Next idb)
        → Steps idb s (solo n)
        → Steps idb s (solo (alone idb platform fetch settings k ticks n))
    unfolding alone
    alone-Steps zero ticks n r = r
    alone-Steps (suc k) ticks (w, none) r = r
    alone-Steps (suc k) ticks (w, some t) r =
        alone-Steps k ticks (follow idb platform fetch settings w t ticks)
          (follow-Steps w t ticks r)

    -- a call that nothing comes between
    pub Call-Steps :
        {s : System idb} (w v : World idb) (k : ℕ) (ticks : Ticks) (n : Next idb)
        → Call idb w n
        → alone idb platform fetch settings k ticks n ≡ over idb v
        → Steps idb s (solo (w, none))
        → Steps idb s (solo (v, none))
    Call-Steps {s} w v k ticks n c e r =
        subst (λ m. Steps idb s (solo m)) e (alone-Steps k ticks n (solo-Call w n r c))
