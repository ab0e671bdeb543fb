-- ===== src/Chats/Async/Quiet.antt =====
-- How the page of frontend/src/store/useChats.ts comes to rest once its calls are left alone.
use llm_router_ui.Prelude.{
  ℕ, zero, suc, ◌≤◌, ◌<◌, ◌≡◌, refl, Bool, true, false, Option, none, some, List, [], ◌∷◌, ◌++◌,
  arith, ◌⊎◌, inl, inr, ap,
}
use llm_router_ui.Text.{Text}
use llm_router_ui.Types.{Settings}
use llm_router_ui.Idb.{ObjectStore}
use llm_router_ui.Db.{Db}
use llm_router_ui.Api.{Result}
use llm_router_ui.Api.Request.{Completion}
use llm_router_ui.Chats.{World}
use llm_router_ui.Chats.Run.{Run, Ticks}
use llm_router_ui.Chats.Async.{
  Task, listing, selecting, removing, renaming, opening, asking, dropping, reading, saving,
  touching, failing, end_read, end_fetch, resume,
}
use llm_router_ui.Chats.Async.System.{
  Move, ends_read, ends_fetch, task_list, System, resumes, moves, Steps, here, next, opening_page,
}
use llm_router_ui.Chats.Async.Effects.{Badge}
use llm_router_ui.Chats.Async.Marks.{Runs, Marked, Steps-keep, Steps-Marked}
use llm_router_ui.Chats.Async.Rest.{is_report, Move-rest, rest, total, total-replace}

rest_positive : (t : Task) → 0 < rest t
rest_positive (listing chats) = omega arith
rest_positive (selecting id ms) = omega arith
rest_positive (removing id) = omega arith
rest_positive (renaming id chat) = omega arith
rest_positive (opening chat content model ticks) = omega arith
rest_positive (asking m model) = omega arith
rest_positive (dropping id ms model) = omega arith
rest_positive (reading run) = omega arith
rest_positive (saving run) = omega arith
rest_positive (touching run chat) = omega arith
rest_positive (failing run message) = omega arith

not_true : (b : Bool) → (b ≡ true → ⊥) → b ≡ false
not_true true no_more = absurd (no_more refl)
not_true false no_more = refl

not_some : {A : Type 0} (o : Option A) → ((x : A) → o ≡ some x → ⊥) → o ≡ none
not_some none no_more = refl
not_some (some x) no_more = absurd (no_more x refl)

no_task_runs : (P : Badge → Type 0) (ts : List Task) → ts ≡ [] → Runs P ts → ⊥
no_task_runs P [] e (t, b, m, q, p) = elim m [ ]
no_task_runs P (x ∷ ts) e r = cc

no_tasks : (ts : List Task) → total ts ≤ 0 → ts ≡ []
no_tasks [] h = refl
no_tasks (t ∷ ts) h = absurd (omega (arith, rest_positive t))

-- How the calls go on when they are left alone. At each move, counted from 0: the place of the task
-- that is resumed, the settings and the clock that it finds, and what ends a read of the network,
-- the text of a stream, the whole answer, or whatever either throws.
pub record Course : Type 0 where
  pub place : ℕ → ℕ
  pub settings : ℕ → Settings
  pub ticks : ℕ → Ticks
  pub end : ℕ → Run → Result Text ⊎ Result Completion

-- a task, with those before it and those after it; a place behind the end is that of the last
abbrev Picked : Type 0
Picked = List Task × Task × List Task

abbrev pick : ℕ → List Task → Option Picked
pick n [] = none
pick n (t ∷ []) = some ([], t, [])
pick zero (t ∷ u ∷ ts) = some ([], t, u ∷ ts)
pick (suc n) (t ∷ u ∷ ts) =
    let rest = pick n (u ∷ ts) in
    elim rest [ none ↦ none | some (before, x, after) ↦ some (t ∷ before, x, after) ]

pick_cases :
    (n : ℕ) (ts : List Task)
    → (ts ≡ []) ⊎ ((q : Picked) × (pick n ts ≡ some q) × (ts ≡ q.0 ++ q.1 ∷ q.2))
pick_cases n [] = inl refl
pick_cases n (t ∷ []) = inr (([], t, []), refl, refl)
pick_cases zero (t ∷ u ∷ ts) = inr (([], t, u ∷ ts), refl, refl)
pick_cases (suc n) (t ∷ u ∷ ts) = elim (pick_cases n (u ∷ ts)) [
  | inl e ↦ absurd (cc)
  | inr (q, e, f) ↦ inr ((t ∷ q.0, q.1, q.2), rw e, ap (λ l. t ∷ l) f)
]

module _ (idb : ObjectStore) where
  -- nothing is under way, and nothing is shown as if it were
  pub record AtRest (s : System idb) : Type 0 where
    pub none_left : s.tasks ≡ []
    pub quiet : s.world.streaming ≡ false
    pub unmarked : s.world.streaming_id ≡ none
    pub uncontrolled : s.world.controller ≡ none

  -- a read of the network ends, in a stream or as a whole
  abbrev end_any : World idb → Run → Result Text ⊎ Result Completion → World idb × Option Task
  end_any w run (inl result) = end_read idb w run result
  end_any w run (inr result) = end_fetch idb w run result

  -- a move of a task that is no report
  abbrev Onward : World idb → Task → World idb × Option Task → Type 0
  Onward w t n = (m : Move idb w t n) × (is_report idb m ≡ false)

  end_any-Onward :
      (w : World idb) (run : Run) (end : Result Text ⊎ Result Completion)
      → Onward w (reading run) (end_any w run end)
  end_any-Onward w run (inl result) = (ends_read run result, refl)
  end_any-Onward w run (inr result) = (ends_fetch run result, refl)

  module _ (course : Course) where
    -- the move of one task, the n-th of all
    unfoldable go_on : ℕ → World idb → Task → World idb × Option Task
    unfolding resume end_read end_fetch
    go_on n w (reading run) = end_any w run (course.end n run)
    go_on n w t = resume idb (course.settings n) w t (course.ticks n)

    -- the page once its calls have gone on, one task at a time and at most `fuel` times
    unfoldable pub settled : (fuel n : ℕ) → System idb → System idb
    unfolding go_on
    settled zero n s = s
    settled (suc fuel) n s = elim (pick (course.place n) s.tasks) [
      | none ↦ s
      | some (before, t, after) ↦
          let on = go_on n s.world t in
          settled fuel (suc n) (record { world = on.0; tasks = before ++ task_list on.1 ++ after })
    ]

    go_on-Onward : (n : ℕ) (w : World idb) (t : Task) → Onward w t (go_on n w t)
    unfolding go_on
    go_on-Onward n w (reading run) = end_any-Onward w run (course.end n run)
    go_on-Onward n w (listing chats) =
        (resumes (course.settings n) (listing chats) (course.ticks n) refl, refl)
    go_on-Onward n w (selecting id ms) =
        (resumes (course.settings n) (selecting id ms) (course.ticks n) refl, refl)
    go_on-Onward n w (removing id) =
        (resumes (course.settings n) (removing id) (course.ticks n) refl, refl)
    go_on-Onward n w (renaming id chat) =
        (resumes (course.settings n) (renaming id chat) (course.ticks n) refl, refl)
    go_on-Onward n w (opening chat content model ids) =
        (resumes (course.settings n) (opening chat content model ids) (course.ticks n) refl, refl)
    go_on-Onward n w (asking m model) =
        (resumes (course.settings n) (asking m model) (course.ticks n) refl, refl)
    go_on-Onward n w (dropping id ms model) =
        (resumes (course.settings n) (dropping id ms model) (course.ticks n) refl, refl)
    go_on-Onward n w (saving run) =
        (resumes (course.settings n) (saving run) (course.ticks n) refl, refl)
    go_on-Onward n w (touching run chat) =
        (resumes (course.settings n) (touching run chat) (course.ticks n) refl, refl)
    go_on-Onward n w (failing run message) =
        (resumes (course.settings n) (failing run message) (course.ticks n) refl, refl)

    -- As many moves as there are awaits left are enough, and each is one that the page can make.
    settled-Steps :
        (fuel n : ℕ) {r : System idb} (s : System idb)
        → total s.tasks ≤ fuel
        → Steps idb r s
        → Steps idb r (settled fuel n s) × ((settled fuel n s).tasks ≡ [])
    unfolding settled
    settled-Steps zero n s h d = (d, no_tasks s.tasks h)
    settled-Steps (suc fuel) n s h d = elim (pick_cases (course.place n) s.tasks) [
      | inl e ↦ rw (settled, e) (d, e)
      | inr ((before, t, after), e, f) ↦
          let (m, silent) = go_on-Onward n s.world t in
          rw (settled, e)
            (settled-Steps fuel (suc n) _
              (omega
                (arith, ap total f, total-replace idb before t after _ (Move-rest idb m silent)))
              (next d (moves before t after f m)))
    ]

  Marked-AtRest : (u : System idb) → u.tasks ≡ [] → Marked idb u.world u.tasks → AtRest u
  Marked-AtRest u e h = record {
    none_left = e;
    quiet = not_true u.world.streaming (λ f. no_task_runs _ _ e (h.streaming f));
    unmarked = not_some u.world.streaming_id (λ id f. no_task_runs _ _ e (h.written id f));
    uncontrolled = not_some u.world.controller (λ c f. no_task_runs _ _ e (h.controlled c f));
  }

  -- Whatever calls were made since the page opened and however far they have got: left alone, with
  -- no further report of a stream, they end, in whatever order they go on, with whatever settings
  -- and clock each move finds, and with whatever each read ends, an error or an abort included. As
  -- many moves as they have awaits before them are enough; no task is then left, and the store
  -- shows no answer as streaming, no message as being written, and holds no controller.
  pub settled-AtRest :
      (course : Course) (db : Db idb) (fuel : ℕ) {s : System idb}
      → Steps idb (opening_page idb db) s
      → total s.tasks ≤ fuel
      → Steps idb s (settled course fuel 0 s) × AtRest (settled course fuel 0 s)
  settled-AtRest course db fuel {s} r h =
      let (on, ended) = settled-Steps course fuel 0 s h here in
      (on, Marked-AtRest _ ended (Steps-keep idb on (Steps-Marked idb db r)))
