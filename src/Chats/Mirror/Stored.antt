-- ===== src/Chats/Mirror/Stored.antt =====
-- What each change of the message store does to the messages that a chat shows.
use llm_router_ui.Prelude.{
  ◌≡◌, refl, sym, ap, ◌∙◌, subst, Bool, true, false, ◌⊎◌, Option, none, some, List, [], ◌∷◌, ◌++◌,
  ℕ, ltb, filter, In-append_left, In-append_right, In-append_cases, In-of_filter, In-filter, inl,
  inr, arith, Bool-cases,
}
use llm_router_ui.Text.{Text, same}
use llm_router_ui.Text.Laws.{same→eq, same_refl}
use llm_router_ui.Types.{Message}
use llm_router_ui.Idb.{ObjectStore}
use llm_router_ui.Idb.Laws.{unless}
use llm_router_ui.Db.{Db, IsKeyed, list_messages, save_message, delete_chat, delete_messages_from}
use llm_router_ui.Db.Order.{list_messages_exact}
use llm_router_ui.Db.Deletion.{delete_chat_exact, delete_messages_from_exact}
use llm_router_ui.Chats.Mirror.{seen, Shows}

seen-created_at : (m s : Message) → seen m ≡ seen s → m.created_at ≡ s.created_at
unfolding seen
seen-created_at m s e = ap (λ (x : Message). x.created_at) e

module _ (idb : ObjectStore) where
  open idb use {Table, get, put, get-put}

  pub list_messages-Shows :
      (db : Db idb) (c : Text) → IsKeyed idb db → Shows idb db.messages (list_messages idb db c) c
  list_messages-Shows db c keyed = record {
    stored =
        λ m h. let (e, ours) = (list_messages_exact idb db c m keyed).0.0 h in (m, e, ours, refl);
    shown = λ k s e ours.
        let under = sym (keyed.messages k s e) in
        (
          s,
          (list_messages_exact idb db c s keyed).0.1
              (subst (λ j. get db.messages j ≡ some s) under e, ours),
          refl,
        );
  }

  pub nil-Shows :
      (t : Table Message) (c : Text)
      → ((k : Text) (s : Message) → get t k ≡ some s → same s.chat_id c ≡ false)
      → Shows idb t [] c
  nil-Shows t c none_of = record {
    stored = λ m h. elim h [ ];
    shown = λ k s e ours. grind (arith, none_of k s e);
  }

  put_kept :
      (t : Table Message) (k j : Text) (s y : Message)
      → get t k ≡ none
      → get t j ≡ some y
      → get (put t k s) j ≡ some y
  put_kept t k j s y e f = elim (Bool-cases (same k j)) [
    | inl here ↦ grind (arith, same→eq k j here)
    | inr other ↦ get-put t k j s ∙ rw (other, f)
  ]

  put_hit : (t : Table Message) (k j : Text) (s : Message) → j ≡ k → get (put t k s) j ≡ some s
  put_hit t k j s e = get-put t k j s ∙ rw (e, same_refl k)

  put_cases :
      (t : Table Message) (k j : Text) (s y : Message)
      → get (put t k s) j ≡ some y
      → (y ≡ s) ⊎ (get t j ≡ some y)
  put_cases t k j s y e = ground (arith, get-put t k j s)

  -- a message that is stored under a fresh id and shown at the end
  pub save_message-Shows :
      (db : Db idb) (ms : List Message) (c : Text) (s m : Message)
      → Shows idb db.messages ms c
      → get db.messages s.id ≡ none
      → same s.chat_id c ≡ true
      → m.id ≡ s.id
      → seen m ≡ seen s
      → Shows idb (save_message idb db s).messages (ms ++ m ∷ []) c
  unfolding save_message
  save_message-Shows db ms c s m h fresh ours i e = record {
    stored = λ x k. elim (In-append_cases x ms (m ∷ []) k) [
      | inl old ↦
          let (y, f, o, q) = h.stored x old in (y, put_kept db.messages s.id x.id s y fresh f, o, q)
      | inr (inl r) ↦ (s, put_hit db.messages s.id x.id s (rw r i), ours, rw r (sym e))
      | inr (inr r) ↦ elim r [ ]
    ];
    shown = λ k x f o. elim (put_cases db.messages s.id k s x f) [
      | inl r ↦ (m, In-append_right m ms (m ∷ []) (inl refl), rw r e)
      | inr old ↦ let (y, j, q) = h.shown k x old o in (y, In-append_left y ms (m ∷ []) j, q)
    ];
  }

  unless_kept :
      {A : Type 0} (p : A → Bool) (o : Option A) (a : A)
      → o ≡ some a
      → p a ≡ false
      → unless p o ≡ some a
  unless_kept p o a e f = rw e (rw f)

  of_unless :
      {A : Type 0} (p : A → Bool) (o : Option A) (a : A)
      → unless p o ≡ some a
      → (o ≡ some a) × (p a ≡ false)
  of_unless p o a e = ground arith

  pub delete_messages_from-Shows :
      (db : Db idb) (ms : List Message) (c : Text) (at : ℕ)
      → IsKeyed idb db
      → Shows idb db.messages ms c
      → Shows idb
          (delete_messages_from idb db c at).messages
          (filter (λ m. ltb m.created_at at) ms)
          c
  delete_messages_from-Shows db ms c at keyed h = record {
    stored = λ m k.
        let (old, early) = In-of_filter m _ ms k in
        let (s, e, ours, q) = h.stored m old in
        let same_time = seen-created_at s m q in
        (
          s,
          delete_messages_from_exact idb db c at m.id keyed
              ∙ unless_kept _ (get db.messages m.id) s e (ground arith),
          ours,
          q,
        );
    shown = λ k s e ours.
        let (f, late) =
          of_unless _ (get db.messages k) s
            (sym (delete_messages_from_exact idb db c at k keyed) ∙ e) in
        let (m, j, q) = h.shown k s f ours in
        let same_time = seen-created_at m s q in (m, In-filter m _ ms j (ground arith), q);
  }

  -- deleting another chat
  pub delete_chat-Shows :
      (db : Db idb) (ms : List Message) (c d : Text)
      → Shows idb db.messages ms c
      → same c d ≡ false
      → Shows idb (delete_chat idb db d).messages ms c
  delete_chat-Shows db ms c d h ne = record {
    stored = λ m k.
        let (s, e, ours, q) = h.stored m k in
        (
          s,
          (delete_chat_exact idb db d m.id).1
              ∙ unless_kept _ (get db.messages m.id) s e (rw (same→eq s.chat_id c ours) ne),
          ours,
          q,
        );
    shown = λ k s e ours.
        let (f, other) =
          of_unless _ (get db.messages k) s (sym (delete_chat_exact idb db d k).1 ∙ e) in
        h.shown k s f ours;
  }
