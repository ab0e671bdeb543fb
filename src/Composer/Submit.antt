-- ===== src/Composer/Submit.antt =====
-- What the input of frontend/src/components/Composer.tsx does to the stores.
use llm_router_ui.Prelude.{
  ◌≡◌, ◌⊎◌, refl, sym, ap, ◌∙◌, Bool, true, false, ◌||◌, none, some, List, [], ◌∷◌, map, find,
  arith, Bool-cases, Option-cases, inl, inr, if◌then◌else◌,
}
use mathlib.Core.Option
use llm_router_ui.Text.{Text, is_empty, trim}
use llm_router_ui.Text.Laws.{trim_idem, same_refl}
use llm_router_ui.Types.{Provider, Settings}
use llm_router_ui.Types.Patch.{ProviderPatch, no_provider_patch, apply_provider}
use llm_router_ui.Idb.{ObjectStore}
use llm_router_ui.Settings.{
  is_id, active_provider, patch_provider, with_patched, update_provider, set_and_save,
}
use llm_router_ui.Api.{Platform, Response, Result}
use llm_router_ui.Api.Request.{Request}
use llm_router_ui.Chats.{World, set_store}
use llm_router_ui.Chats.Run.{Ticks}
use llm_router_ui.Chats.Send.{SendTicks, no_provider, target_chat, deliver, send}
use llm_router_ui.Screen.{Screen, on_world}
use llm_router_ui.Composer.{ComposerState, submit, choose_model}

pub find-map :
    {A : Type 0} (p : A → Bool) (f : A → A)
    → ((a : A) → p (f a) ≡ p a)
    → (xs : List A) → find p (map f xs) ≡ Option.map f (find p xs)
unfolding find
find-map p f h [] = refl
find-map p f h (x ∷ xs) = elim (Bool-cases (p x)) [
  | inl e ↦ rw (h x, e)
  | inr e ↦ rw (h x, e) (find-map p f h xs)
]

patch_provider-id :
    (id : Text) (patch : ProviderPatch) (p : Provider)
    → patch.id ≡ none
    → (patch_provider id patch p).id ≡ p.id
unfolding patch_provider apply_provider
patch_provider-id id patch p e = ground (arith, e)

module _ (idb : ObjectStore) (prefers_dark : Bool) where
  module _ (platform : Platform) (fetch : Request → Result Response) where
    send-trim :
        (settings : Settings) (w : World idb) (t : Text) (ticks : SendTicks) (run_ticks : Ticks)
        → send idb platform fetch settings w (trim t) ticks run_ticks
          ≡ send idb platform fetch settings w t ticks run_ticks
    unfolding send
    send-trim settings w t ticks run_ticks =
        let body : Text → World idb = λ content.
          if is_empty content || w.streaming then w else elim (active_provider settings) [
            | none ↦ set_store idb w (record w.store { error = some no_provider })
            | some provider ↦
                deliver idb platform fetch settings (target_chat idb w content ticks) content
                  provider ticks run_ticks
          ] in
        ap body (trim_idem t)

    send_refused :
        (settings : Settings) (w : World idb) (t : Text) (ticks : SendTicks) (run_ticks : Ticks)
        → (is_empty (trim t) || w.streaming) ≡ true
        → send idb platform fetch settings w t ticks run_ticks ≡ w
    unfolding send
    send_refused settings w t ticks run_ticks off = rw (send, off)

    submit_accepted :
        (s : Screen idb prefers_dark) (c : ComposerState) (ticks : SendTicks) (run_ticks : Ticks)
        → (is_empty (trim c.text) || s.world.streaming) ≡ false
        → submit idb prefers_dark platform fetch (s, c) ticks run_ticks ≡ (
          on_world idb prefers_dark s
              (λ w. send idb platform fetch s.preferences.settings w (trim c.text) ticks run_ticks),
          record c { text = [] },
        )
    unfolding submit
    submit_accepted s c ticks run_ticks on = rw (submit, on)

    submit_refused :
        (s : Screen idb prefers_dark) (c : ComposerState) (ticks : SendTicks) (run_ticks : Ticks)
        → (is_empty (trim c.text) || s.world.streaming) ≡ true
        → submit idb prefers_dark platform fetch (s, c) ticks run_ticks ≡ (s, c)
    unfolding submit
    submit_refused s c ticks run_ticks off = rw (submit, off)

    -- Submitting the input does to the chats what sending its untrimmed text does, refusals
    -- included, and it empties the input unless the text is blank or an answer is streaming.
    pub submit-send :
        (s : Screen idb prefers_dark) (c : ComposerState) (ticks : SendTicks) (run_ticks : Ticks)
        → (let after = submit idb prefers_dark platform fetch (s, c) ticks run_ticks in
            (after.0.world
              ≡ send idb platform fetch s.preferences.settings s.world c.text ticks run_ticks)
            × (after.1.text ≡ (if is_empty (trim c.text) || s.world.streaming then c.text else [])))
    submit-send s c ticks run_ticks =
        elim (Bool-cases (is_empty (trim c.text) || s.world.streaming)) [
          | inl off ↦ (
            ap (λ x. x.0.world) (submit_refused s c ticks run_ticks off)
                ∙ sym (send_refused s.preferences.settings s.world c.text ticks run_ticks off),
            ap (λ x. x.1.text) (submit_refused s c ticks run_ticks off) ∙ rw off,
          )
          | inr on ↦ (
            ap (λ x. x.0.world) (submit_accepted s c ticks run_ticks on)
                ∙ send-trim s.preferences.settings s.world c.text ticks run_ticks,
            ap (λ x. x.1.text) (submit_accepted s c ticks run_ticks on) ∙ rw on,
          )
        ]

  active_provider-with_patched :
      (s : Settings) (p : Provider) (patch : ProviderPatch)
      → patch.id ≡ none
      → active_provider s ≡ some p
      → active_provider (with_patched s p.id patch) ≡ some (apply_provider p patch)
  unfolding active_provider with_patched patch_provider
  active_provider-with_patched s p patch e f =
      find-map (λ q. is_id s.active_provider_id q.id) (patch_provider p.id patch)
        (λ q. ap (is_id s.active_provider_id) (patch_provider-id p.id patch q e)) s.providers
      ∙ rw f (rw (same_refl p.id))

  -- Without an active provider, choosing a model changes nothing, neither on the screen nor in the
  -- composer. With one it changes the model of that provider, which stays active, and nothing else
  -- of it; it leaves what is shown of the chats alone, and of the composer it closes the picker and empties the
  -- search, and changes nothing else.
  pub choose_model_exact :
      (s : Screen idb prefers_dark) (c : ComposerState) (model : Text)
      → (let after = choose_model idb prefers_dark (s, c) model in
          ((active_provider s.preferences.settings ≡ none) × (after ≡ (s, c)))
          ⊎ ((p : Provider) × (active_provider s.preferences.settings ≡ some p)
              × (active_provider after.0.preferences.settings ≡ some (record p { model = model }))
              × (after.0.world.store ≡ s.world.store)
              × (after.1 ≡ record c { picker_open = false; query = [] })))
  unfolding choose_model update_provider set_and_save
  choose_model_exact s c model = elim (Option-cases (active_provider s.preferences.settings)) [
    | inl e ↦ inl (e, rw (choose_model, e))
    | inr (p, e) ↦ inr (
      p,
      e,
      rw (choose_model, e)
          (active_provider-with_patched s.preferences.settings p
              (record no_provider_patch { model = some model }) refl e
            ∙ unfold apply_provider in refl),
      rw (choose_model, e),
      rw (choose_model, e),
    )
  ]
