-- ===== src/SettingsModal/Wipe.antt =====
-- `Delete all data` of frontend/src/components/SettingsModal.tsx.
use llm_router_ui.Prelude.{◌≡◌, refl, Bool, true, false, none, List, [], ◌∷◌, In, inl, arith}
use llm_router_ui.Text.{Text}
use llm_router_ui.Types.{default_settings}
use llm_router_ui.Idb.{ObjectStore}
use llm_router_ui.Db.{Db, IsKeyed, list_chats, clear_all}
use llm_router_ui.Db.Order.{list_chats_exact}
use llm_router_ui.Settings.{wipe}
use llm_router_ui.Chats.{hydrate, select_chat}
use llm_router_ui.Screen.{Screen}
use llm_router_ui.SettingsModal.{ModalState}
use llm_router_ui.SettingsModal.Actions.{do_wipe}

eq_nil : {A : Type 0} (xs : List A) → ((a : A) → ¬ In a xs) → xs ≡ []
eq_nil [] h = refl
eq_nil (x ∷ xs) h = absurd (h x (inl refl))

module _ (idb : ObjectStore) (prefers_dark : Bool) where
  open idb use {get, get-clear}

  cleared-IsKeyed : (db : Db idb) → IsKeyed idb (clear_all idb db)
  unfolding clear_all
  cleared-IsKeyed db = record {
    chats = λ k c e. ground (arith, get-clear db.chats k);
    messages = λ k m e. ground (arith, get-clear db.messages k);
  }

  list_chats-clear_all : (db : Db idb) → list_chats idb (clear_all idb db) ≡ []
  unfolding clear_all
  list_chats-clear_all db = eq_nil _ (λ c h.
      let stored = (list_chats_exact idb (clear_all idb db) c (cleared-IsKeyed db)).0.0 h in
      ground (arith, get-clear db.chats c.id))

  -- A wipe that is confirmed leaves no chat and no message, shown or stored, no chat selected, and
  -- the default settings; one that is not confirmed changes nothing.
  pub do_wipe_exact :
      (s : Screen idb prefers_dark) (m : ModalState) (k : Text)
      → (let after = (do_wipe idb prefers_dark true (s, m)).0 in
          (do_wipe idb prefers_dark false (s, m) ≡ (s, m))
          × (after.world.chats ≡ [])
          × (after.world.messages ≡ [])
          × (after.world.active_chat_id ≡ none)
          × (get after.world.db.chats k ≡ none)
          × (get after.world.db.messages k ≡ none)
          × (after.preferences.settings ≡ default_settings))
  unfolding do_wipe wipe hydrate select_chat clear_all
  do_wipe_exact s m k = (
    refl,
    list_chats-clear_all s.world.db,
    refl,
    refl,
    get-clear s.world.db.chats k,
    get-clear s.world.db.messages k,
    refl,
  )
