-- ===== src/Idb.antt =====
-- The object stores of the browser's IndexedDB, which the package `idb` wraps: what
-- frontend/src/lib/db.ts relies on. A table maps keys to records; `entries` is a cursor over it.
-- Neither is code of the repository, so the stores are a parameter with their documented laws.
pub mod Laws
pub mod Assoc
use llm_router_ui.Prelude.{◌≡◌, ◌↔◌, Option, none, some, List, if◌then◌else◌, In}
use llm_router_ui.Text.{Text, same}

pub record ObjectStore : Type 1 where
  pub Table : Type 0 → Type 0
  pub empty : {V : Type 0} → Table V
  pub get : {V : Type 0} → Table V → Text → Option V
  pub put : {V : Type 0} → Table V → Text → V → Table V
  pub delete : {V : Type 0} → Table V → Text → Table V
  pub clear : {V : Type 0} → Table V → Table V
  pub entries : {V : Type 0} → Table V → List (Text × V)
  -- a put replaces the record of its key and touches no other
  pub get-put :
      {V : Type 0} (t : Table V) (k j : Text) (v : V)
      → get (put t k v) j ≡ (if same k j then some v else get t j)
  pub get-delete :
      {V : Type 0} (t : Table V) (k j : Text)
      → get (delete t k) j ≡ (if same k j then none else get t j)
  pub get-clear : {V : Type 0} (t : Table V) (k : Text) → get (clear t) k ≡ none
  pub get-empty : {V : Type 0} (k : Text) → get (empty {V = V}) k ≡ none
  -- a cursor meets exactly the records that are stored
  pub entries_iff :
      {V : Type 0} (t : Table V) (k : Text) (v : V) → In (k, v) (entries t) ↔ (get t k ≡ some v)
