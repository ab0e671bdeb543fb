-- ===== src/Chats/Async/Rest.antt =====
-- How long the calls of frontend/src/store/useChats.ts can go on by themselves, and that the page
-- can always come to rest.
use llm_router_ui.Prelude.{
  ℕ, suc, ◌+◌, ◌≤◌, ◌<◌, ◌≡◌, refl, ap, Bool, true, false, Option, none, some, List, [], ◌∷◌, ◌++◌,
  find, arith, inl, inr, Option-cases, Bool-cases,
}
use llm_router_ui.Text.{Text, same, is_empty}
use llm_router_ui.Types.{Settings}
use llm_router_ui.Idb.{ObjectStore}
use llm_router_ui.Settings.{active_provider}
use llm_router_ui.Api.{
  returned, threw, Thrown, abort_error, api_error, type_error, other_error, not_an_error,
}
use llm_router_ui.Chats.{World}
use llm_router_ui.Chats.Run.{Run, Ticks}
use llm_router_ui.Chats.Async.{
  is_reading, Task, listing, selecting, removing, renaming, opening, asking, dropping, reading,
  saving, touching, failing, ask, begin, save_answer, save_failure, fail_read, end_read, end_fetch,
  touch, resume,
}
use llm_router_ui.Chats.Async.System.{
  task_list, System, Move, resumes, reports, ends_read, ends_fetch,
}

-- the awaits that a task has before it, at most
abbrev pub rest : Task → ℕ
rest (listing chats) = 1
rest (selecting id ms) = 1
rest (removing id) = 1
rest (renaming id chat) = 1
rest (opening chat content model ticks) = 5
rest (asking m model) = 4
rest (dropping id ms model) = 4
rest (reading run) = 3
rest (saving run) = 2
rest (touching run chat) = 1
rest (failing run message) = 1

abbrev pub total : List Task → ℕ
total [] = 0
total (t ∷ ts) = rest t + total ts

abbrev pub rest? : Option Task → ℕ
rest? none = 0
rest? (some t) = rest t

total-append : (ts us : List Task) → total (ts ++ us) ≡ total ts + total us
total-append [] us = omega arith
total-append (t ∷ ts) us = omega (arith, total-append ts us)

total-task_list : (o : Option Task) → total (task_list o) ≡ rest? o
total-task_list none = refl
total-task_list (some t) = omega arith

module _ (idb : ObjectStore) where
  begin-rest :
      (settings : Settings) (w : World idb) (chat_id model : Text) (ticks : Ticks)
      → rest? (begin idb settings w chat_id model ticks).1 < 4
  unfolding begin
  begin-rest settings w chat_id model ticks = elim (Option-cases (active_provider settings)) [
    | inl e ↦ rw (begin, e) (omega arith)
    | inr (p, e) ↦ rw (begin, e) (omega arith)
  ]

  fail_read-rest : (w : World idb) (run : Run) (e : Thrown) → rest? (fail_read idb w run e).1 < 3
  unfolding fail_read save_answer save_failure
  fail_read-rest w run abort_error = elim (Bool-cases (is_empty run.accumulated)) [
    | inl e ↦ rw (fail_read, e) (omega arith)
    | inr e ↦ rw (fail_read, e) (omega arith)
  ]
  fail_read-rest w run (api_error m status) = omega arith
  fail_read-rest w run (type_error m) = omega arith
  fail_read-rest w run (other_error m) = omega arith
  fail_read-rest w run not_an_error = omega arith

  touch-rest : (w : World idb) (run : Run) (now : ℕ) → rest? (touch idb w run now).1 < 2
  unfolding touch
  touch-rest w run now = elim (Option-cases (find (λ c. same c.id run.chat_id) w.chats)) [
    | inl e ↦ rw (touch, e) (omega arith)
    | inr (c, e) ↦ rw (touch, e) (omega arith)
  ]

  pub resume-rest :
      (settings : Settings) (w : World idb) (t : Task) (ticks : Ticks)
      → is_reading t ≡ false
      → rest? (resume idb settings w t ticks).1 < rest t
  unfolding resume ask
  resume-rest settings w (listing chats) ticks h = omega arith
  resume-rest settings w (selecting id ms) ticks h = omega arith
  resume-rest settings w (removing id) ticks h = omega arith
  resume-rest settings w (renaming id updated) ticks h = omega arith
  resume-rest settings w (opening chat content model send_ticks) ticks h = omega arith
  resume-rest settings w (asking m model) ticks h = begin-rest settings _ m.chat_id model ticks
  resume-rest settings w (dropping id kept model) ticks h = begin-rest settings _ id model ticks
  resume-rest settings w (reading run) ticks h = absurd (cc)
  resume-rest settings w (saving run) ticks h = touch-rest w run ticks.touched
  resume-rest settings w (touching run updated) ticks h = omega arith
  resume-rest settings w (failing run message) ticks h = omega arith

  abbrev pub is_report :
      {w : World idb} {t : Task} {n : World idb × Option Task} → Move idb w t n → Bool
  is_report (resumes settings t ticks e) = false
  is_report (reports run e) = true
  is_report (ends_read run result) = false
  is_report (ends_fetch run result) = false

  pub Move-rest :
      {w : World idb} {t : Task} {n : World idb × Option Task} (m : Move idb w t n)
      → is_report m ≡ false
      → rest? n.1 < rest t
  unfolding end_read end_fetch save_answer
  Move-rest {w} (resumes settings t ticks e) h = resume-rest settings w t ticks e
  Move-rest (reports run e) h = cc
  Move-rest (ends_read run (returned full)) h = omega arith
  Move-rest {w} (ends_read run (threw e)) h = fail_read-rest w run e
  Move-rest (ends_fetch run (returned result)) h = omega arith
  Move-rest {w} (ends_fetch run (threw e)) h = fail_read-rest w run e

  -- a number of moves in a row, with no call and no report of a stream among them
  pub data Drain (s : System idb) : ℕ → System idb → Type 0 where
    drained : Drain s 0 s
    drains :
        {k : ℕ} {t : System idb} (before : List Task) (x : Task) (after : List Task)
        {n : World idb × Option Task}
        → Drain s k t
        → t.tasks ≡ before ++ x ∷ after
        → (m : Move idb t.world x n) → is_report m ≡ false
        → Drain s (suc k) (record { world = n.0; tasks = before ++ task_list n.1 ++ after })

  pub total-replace :
      (before : List Task) (x : Task) (after : List Task) (o : Option Task)
      → rest? o < rest x
      → total (before ++ task_list o ++ after) < total (before ++ x ∷ after)
  total-replace before x after o h = omega (
    arith,
    total-append (before ++ task_list o) after,
    total-append before (task_list o),
    total-append before (x ∷ after),
    total-task_list o,
  )

  -- Left alone, the calls that are under way come to an end: once no stream reports any more, they
  -- go on for at most as many moves as they have awaits before them.
  pub Drain-bounded : {s t : System idb} {k : ℕ} → Drain s k t → k + total t.tasks ≤ total s.tasks
  Drain-bounded drained = omega arith
  Drain-bounded (drains before x after {n} d at m h) =
      omega (arith, Drain-bounded d, ap total at, total-replace before x after n.1 (Move-rest m h))
