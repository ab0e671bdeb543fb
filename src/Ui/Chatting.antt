-- ===== src/Ui/Chatting.antt =====
-- The handlers of frontend/src/components that rename a chat or send a message keep what holds of
-- the page.
use llm_router_ui.Prelude.{Bool, ◌||◌, not, ℕ, if_either}
use llm_router_ui.Text.{Text, codes, same, is_empty, trim}
use llm_router_ui.Idb.{ObjectStore}
use llm_router_ui.Api.{Platform, Response, Result}
use llm_router_ui.Api.Request.{Request}
use llm_router_ui.Chats.Run.{Ticks}
use llm_router_ui.Chats.Send.{SendTicks}
use llm_router_ui.Chats.Mirror.Sending.{IsFresh}
use llm_router_ui.Chats.Mirror.History
use llm_router_ui.Screen.{Screen}
use llm_router_ui.Sidebar.{Editing, commit_rename, rename_key}
use llm_router_ui.Composer.{ComposerState, KeyEvent, wants_send, submit, on_key_down}
use llm_router_ui.Ui.Sound.{IsSound, stepped-Sound}

module _ (idb : ObjectStore) (prefers_dark : Bool) where
  pub commit_rename-IsSound :
      (platform : Platform) (s : Screen idb prefers_dark) (e : Editing) (id : Text) (now : ℕ)
      → IsSound idb prefers_dark s
      → IsSound idb prefers_dark (commit_rename idb prefers_dark (s, e) id now).0
  unfolding commit_rename
  commit_rename-IsSound platform s e id now h =
      if_either (IsSound idb prefers_dark) (is_empty (trim e.draft)) _ _ h
        (stepped-Sound idb prefers_dark platform (History.renames id (trim e.draft) now) h)

  pub rename_key-IsSound :
      (platform : Platform) (s : Screen idb prefers_dark) (e : Editing) (id key : Text) (now : ℕ)
      → IsSound idb prefers_dark s
      → IsSound idb prefers_dark (rename_key idb prefers_dark (s, e) id key now).0
  unfolding rename_key
  rename_key-IsSound platform s e id key now h =
      if_either (λ (se : Screen idb prefers_dark × Editing). IsSound idb prefers_dark se.0)
        (same key (codes "Enter")) _ _ (commit_rename-IsSound platform s e id now h)
        (if_either (λ (se : Screen idb prefers_dark × Editing). IsSound idb prefers_dark se.0)
          (same key (codes "Escape")) _ _ h h)

  module _ (platform : Platform) (fetch : Request → Result Response) where
    pub submit-IsSound :
        (s : Screen idb prefers_dark) (c : ComposerState) (ticks : SendTicks) (run_ticks : Ticks)
        → IsFresh idb s.world ticks run_ticks
        → IsSound idb prefers_dark s
        → IsSound idb prefers_dark (submit idb prefers_dark platform fetch (s, c) ticks run_ticks).0
    unfolding submit
    submit-IsSound s c ticks run_ticks fresh h =
        if_either (λ (sc : Screen idb prefers_dark × ComposerState). IsSound idb prefers_dark sc.0)
          (is_empty (trim c.text) || s.world.streaming) _ _ h
          (stepped-Sound idb prefers_dark platform
            (History.sends fetch s.preferences.settings (trim c.text) ticks run_ticks fresh) h)

    pub on_key_down-IsSound :
        (s : Screen idb prefers_dark) (c : ComposerState) (e : KeyEvent) (ticks : SendTicks)
        (run_ticks : Ticks)
        → IsFresh idb s.world ticks run_ticks
        → IsSound idb prefers_dark s
        → IsSound idb prefers_dark
            (on_key_down idb prefers_dark platform fetch (s, c) e ticks run_ticks).0
    unfolding on_key_down
    on_key_down-IsSound s c e ticks run_ticks fresh h =
        if_either (λ (sc : Screen idb prefers_dark × ComposerState). IsSound idb prefers_dark sc.0)
          (not (same e.key (codes "Enter")) || e.is_composing) _ _ h
          (if_either
            (λ (sc : Screen idb prefers_dark × ComposerState). IsSound idb prefers_dark sc.0)
            (wants_send s.preferences.settings.send_on_enter e) _ _
            (submit-IsSound s c ticks run_ticks fresh h) h)
