-- ===== src/View/Markup.antt =====
-- What of a view reaches the document: all but the handlers. The keys of the stored providers do
-- not, wherever frontend/src/components/SettingsModal.tsx shows these.
use llm_router_ui.Prelude.{
  ◌≡◌, refl, ap, ap₂, ◌∙◌, Bool, true, false, ◌&&◌, not, Option, none, some, List, [], ◌∷◌, map,
}
use mathlib.Core.Option
use llm_router_ui.Text.{Text}
use llm_router_ui.Types.{Provider, Settings}
use llm_router_ui.Db.Backup.{without_key}
use llm_router_ui.Settings.{is_id, active_provider}
use llm_router_ui.SettingsModal.{ModalState}
use llm_router_ui.Composer.Submit.{find-map}
use llm_router_ui.View.{
  Attribute, on, on_text, on_check, on_key, View, Views, nothing, text, element, fragment, nil,
  cons, many, when, box, el,
}
use llm_router_ui.View.Settings.{modal_frame}
use llm_router_ui.View.Settings.Providers.{
  provider_row, is_none_left, no_providers, provider_list, active_field, active_part,
  providers_section, settings_view,
}

abbrev pub written : List Attribute → List Attribute
written [] = []
written (on event a ∷ rest) = written rest
written (on_text event f ∷ rest) = written rest
written (on_check f ∷ rest) = written rest
written (on_key f ∷ rest) = written rest
written (a ∷ rest) = a ∷ written rest

unfoldable mutual
  pub markup : View → View
  markup nothing = nothing
  markup (text t) = text t
  markup (element tag attributes kids) = element tag (written attributes) (all_markup kids)
  markup (fragment kids) = fragment (all_markup kids)

  pub all_markup : Views → Views
  all_markup nil = nil
  all_markup (cons v vs) = cons (markup v) (all_markup vs)

-- the settings with no key in them
unfoldable pub keyless : Settings → Settings
unfolding without_key
keyless s = record s { providers = map without_key s.providers }

provider_row-without_key :
    (id : Option Text) (p : Provider) → provider_row id (without_key p) ≡ provider_row id p
unfolding provider_row without_key
provider_row-without_key id p = refl

rows-without_key :
    (id : Option Text) (ps : List Provider)
    → map (provider_row id) (map without_key ps) ≡ map (provider_row id) ps
rows-without_key id [] = refl
rows-without_key id (p ∷ ps) = ap₂ ◌∷◌ (provider_row-without_key id p) (rows-without_key id ps)

none_left-without_key : (ps : List Provider) → is_none_left (map without_key ps) ≡ is_none_left ps
none_left-without_key [] = refl
none_left-without_key (p ∷ ps) = refl

provider_list-keyless :
    (s : Settings) (adding : Bool) → provider_list (keyless s) adding ≡ provider_list s adding
unfolding provider_list keyless
provider_list-keyless s adding =
    ap₂
      (λ rows left. box "div" "space-y-2" (many rows ∷ when (left && not adding) no_providers ∷ []))
      (rows-without_key s.active_provider_id s.providers) (none_left-without_key s.providers)

active_provider-keyless :
    (s : Settings) → active_provider (keyless s) ≡ Option.map without_key (active_provider s)
unfolding active_provider keyless without_key
active_provider-keyless s =
    find-map (λ p. is_id s.active_provider_id p.id) without_key (λ p. refl) s.providers

active_field-without_key :
    (p : Provider) (m : ModalState)
    → markup (active_field (without_key p) m) ≡ markup (active_field p m)
unfolding markup active_field without_key
active_field-without_key p m = refl

when-markup : (b : Bool) (v w : View) → markup v ≡ markup w → markup (when b v) ≡ markup (when b w)
when-markup false v w e = refl
when-markup true v w e = e

abbrev part_of : ModalState → Option Provider → View
part_of m o = elim o [ none ↦ nothing | some p ↦ when (not m.adding) (active_field p m) ]

part_of-without_key :
    (m : ModalState) (o : Option Provider)
    → markup (part_of m (Option.map without_key o)) ≡ markup (part_of m o)
part_of-without_key m none = refl
part_of-without_key m (some p) =
    when-markup (not m.adding) (active_field (without_key p) m) (active_field p m)
      (active_field-without_key p m)

active_part-keyless :
    (s : Settings) (m : ModalState) → markup (active_part (keyless s) m) ≡ markup (active_part s m)
unfolding active_part
active_part-keyless s m =
    ap (λ o. markup (part_of m o)) (active_provider-keyless s)
    ∙ part_of-without_key m (active_provider s)

section-markup :
    (a b c d e c' e' : View)
    → markup c ≡ markup c'
    → markup e ≡ markup e'
    → markup (el "section" [] (a ∷ b ∷ c ∷ d ∷ e ∷ []))
      ≡ markup (el "section" [] (a ∷ b ∷ c' ∷ d ∷ e' ∷ []))
unfolding markup
section-markup a b c d e c' e' p q = rw (p, q)

providers_section-keyless :
    (s : Settings) (m : ModalState)
    → markup (providers_section (keyless s) m) ≡ markup (providers_section s m)
unfolding providers_section
providers_section-keyless s m =
    section-markup _ _ _ _ _ _ _ (ap markup (provider_list-keyless s m.adding))
      (active_part-keyless s m)

modal_frame-keyless : (s : Settings) (v : View) → modal_frame (keyless s) v ≡ modal_frame s v
unfolding modal_frame keyless
modal_frame-keyless s v = refl

modal_frame-markup :
    (s : Settings) (v w : View)
    → markup v ≡ markup w
    → markup (modal_frame s v) ≡ markup (modal_frame s w)
unfolding markup modal_frame
modal_frame-markup s v w e = rw e

-- The document that the settings make is the same whatever keys the stored providers have: no
-- stored key is shown, or can be read off the page.
pub settings_view-keyless :
    (open_now : Bool) (s : Settings) (m : ModalState)
    → markup (settings_view open_now (keyless s) m) ≡ markup (settings_view open_now s m)
unfolding settings_view markup
settings_view-keyless false s m = refl
settings_view-keyless true s m =
    ap markup (modal_frame-keyless s (providers_section (keyless s) m))
    ∙ modal_frame-markup s (providers_section (keyless s) m) (providers_section s m)
        (providers_section-keyless s m)
