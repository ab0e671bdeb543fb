-- ===== src/Chats/Async/Marks.antt =====
-- However the calls of frontend/src/store/useChats.ts overlap, the marks of a running completion
-- are those of one that is still running.
use llm_router_ui.Prelude.{
  ℕ, ◌≡◌, refl, sym, ap, ◌∙◌, subst, true, Option, none, some, List, [], ◌∷◌, ◌++◌, In,
  In-append_left, In-append_right, In-append_cases, arith, inl, inr,
}
use llm_router_ui.Text.{Text}
use llm_router_ui.Idb.{ObjectStore}
use llm_router_ui.Db.{Db}
use llm_router_ui.Chats.{World}
use llm_router_ui.Chats.Async.{Task}
use llm_router_ui.Chats.Async.System.{
  task_list, System, Step, calls, moves, Steps, here, next, opening_page,
}
use llm_router_ui.Chats.Async.Effects.{
  Badge, badge, badge?, Effect, keeps, clears, begins, Move-Effect, Call-Effect,
}

-- a task of a completion that satisfies a predicate
abbrev pub Runs : (Badge → Type 0) → List Task → Type 0
Runs P ts = (t : Task) × (b : Badge) × In t ts × (badge t ≡ some b) × P b

abbrev pub Anything : Badge → Type 0
Anything b = Unit {0}

module _ (idb : ObjectStore) where
  pub record Marked (w : World idb) (ts : List Task) : Type 0 where
    -- while the store says that it streams, a completion is running
    pub streaming : w.streaming ≡ true → Runs Anything ts
    -- the message that is marked as being written is that of a running completion
    pub written : (id : Text) → w.streaming_id ≡ some id → Runs (λ b. b.0 ≡ id) ts
    -- the controller that `stop` would abort is that of a running completion
    pub controlled : (c : ℕ) → w.controller ≡ some c → Runs (λ b. b.1 ≡ c) ts

  Effect-Marked :
      {w v : World idb} {old new : Option Badge} (ts us : List Task)
      → Effect idb w old v new
      → ((P : Badge → Type 0) → old ≡ new → Runs P ts → Runs P us)
      → ((P : Badge → Type 0) (b : Badge) → new ≡ some b → P b → Runs P us)
      → Marked w ts
      → Marked v us
  Effect-Marked ts us (keeps a b c e) keep fresh h = record {
    streaming = λ f. keep Anything e (h.streaming (a ∙ f));
    written = λ id f. keep (λ d. d.0 ≡ id) e (h.written id (b ∙ f));
    controlled = λ k f. keep (λ d. d.1 ≡ k) e (h.controlled k (c ∙ f));
  }
  Effect-Marked ts us (clears a b c) keep fresh h = record {
    streaming = λ f. absurd (cc);
    written = λ id f. absurd (cc);
    controlled = λ k f. absurd (cc);
  }
  Effect-Marked ts us (begins d e b c) keep fresh h = record {
    streaming = λ f. fresh Anything d e tt;
    written = λ id f. fresh (λ x. x.0 ≡ id) d e (ground arith);
    controlled = λ k f. fresh (λ x. x.1 ≡ k) d e (ground arith);
  }

Runs-left : (P : Badge → Type 0) (ts us : List Task) → Runs P ts → Runs P (ts ++ us)
Runs-left P ts us (t, b, m, e, p) = (t, b, In-append_left t ts us m, e, p)

Runs-right : (P : Badge → Type 0) (ts us : List Task) → Runs P us → Runs P (ts ++ us)
Runs-right P ts us (t, b, m, e, p) = (t, b, In-append_right t ts us m, e, p)

Runs-task_list :
    (P : Badge → Type 0) (o : Option Task) (b : Badge)
    → badge? o ≡ some b
    → P b
    → Runs P (task_list o)
Runs-task_list P none b e p = absurd (cc)
Runs-task_list P (some t) b e p = (t, b, inl refl, e, p)

-- a task is replaced by one of the same completion
Runs-replace :
    (P : Badge → Type 0) (before : List Task) (t : Task) (after : List Task) (o : Option Task)
    → badge t ≡ badge? o
    → Runs P (before ++ t ∷ after)
    → Runs P (before ++ task_list o ++ after)
Runs-replace P before t after o q (x, b, m, e, p) = elim (In-append_cases x before (t ∷ after) m) [
  | inl k ↦
      Runs-left P (before ++ task_list o) after (Runs-left P before (task_list o) (x, b, k, e, p))
  | inr (inl r) ↦
      Runs-left P (before ++ task_list o) after (
        Runs-right P before (task_list o) (Runs-task_list P o b (sym q ∙ (ap badge (sym r) ∙ e)) p))
  | inr (inr k) ↦ Runs-right P (before ++ task_list o) after (x, b, k, e, p)
]

module _ (idb : ObjectStore) where
  Step-Marked :
      {s t : System idb} → Step idb s t → Marked idb s.world s.tasks → Marked idb t.world t.tasks
  Step-Marked {s} (calls {n} c) h =
      Effect-Marked idb s.tasks (s.tasks ++ task_list n.1) (Call-Effect idb c)
        (λ P e. Runs-left P s.tasks (task_list n.1))
        (λ P b e p. Runs-right P s.tasks (task_list n.1) (Runs-task_list P n.1 b e p)) h
  Step-Marked {s} (moves before t after {n} at m) h =
      Effect-Marked idb (before ++ t ∷ after) (before ++ task_list n.1 ++ after) (Move-Effect idb m)
        (λ P e. Runs-replace P before t after n.1 e)
        (λ P b e p.
          Runs-left P (before ++ task_list n.1) after
            (Runs-right P before (task_list n.1) (Runs-task_list P n.1 b e p)))
        (subst (Marked idb s.world) at h)

  pub Steps-keep :
      {s t : System idb} → Steps idb s t → Marked idb s.world s.tasks → Marked idb t.world t.tasks
  Steps-keep here h = h
  Steps-keep (next r st) h = Step-Marked st (Steps-keep r h)

  opening_page-Marked : (db : Db idb) → Marked idb (opening_page idb db).world []
  opening_page-Marked db = record {
    streaming = λ e. absurd (cc);
    written = λ id e. absurd (cc);
    controlled = λ c e. absurd (cc);
  }

  -- However calls and tasks overlap from the opening of the page: while the store says that an
  -- answer streams, a completion is running; the message that is marked as being written, and the
  -- controller that `stop` would abort, are those of a completion that is running.
  pub Steps-Marked :
      (db : Db idb) {s : System idb}
      → Steps idb (opening_page idb db) s
      → Marked idb s.world s.tasks
  Steps-Marked db r = Steps-keep r (opening_page-Marked db)
