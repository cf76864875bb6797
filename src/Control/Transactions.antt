-- ===== src/Control/Transactions.antt =====
-- Lemmas on transactions, statement by statement (internal/server/db).
use lightai_go.Common.{
  ℕ, suc, ◌≡◌, sym, ◌∙◌, Bool, true, false, Option, none, some, List, [], ◌∷◌, inl, inr, All, subst,
  Option-cases, if◌then◌else◌,
}
use lightai_go.Control.{Db, Statement, transaction, commit}

abbrev pub Keeps : (Db → Type 0) → Statement → Type 0
Keeps P s = (db db' : Db) → P db → s db ≡ some db' → P db'

eq-some_of_guard :
    (b : Bool) (o : Option Db) {db : Db} → (if b then none else o) ≡ some db → o ≡ some db
eq-some_of_guard true o e = cc
eq-some_of_guard false o e = e

eq_of_some : (x y : Db) → some x ≡ some y → x ≡ y
eq_of_some x y h = cc

-- What holds of the row that a statement writes holds of its result.
pub kept_by_some : (P : Db → Type 0) (x y : Db) → some x ≡ some y → P x → P y
kept_by_some P x y e = subst P (eq_of_some x y e)

pub kept_by_guard :
    (P : Db → Type 0) (b : Bool) (x y : Db) → (if b then none else some x) ≡ some y → P x → P y
kept_by_guard P b x y e = kept_by_some P x y (eq-some_of_guard b (some x) e)

pub kept_by_guard-eq : (b : Bool) (x y : Db) → (if b then none else some x) ≡ some y → x ≡ y
kept_by_guard-eq b x y e = eq_of_some x y (eq-some_of_guard b (some x) e)

pub transaction_keeps :
    (P : Db → Type 0) (fails : ℕ → Bool) (k : ℕ) (ss : List Statement) (db db' : Db)
    → All (Keeps P) ss
    → P db
    → transaction fails k ss db ≡ some db'
    → P db'
unfolding transaction
transaction_keeps P fails k [] db db' all p e = kept_by_guard P (fails k) db db' e p
transaction_keeps P fails k (s ∷ ss) db db' all p e =
    elim (Option-cases (if fails k then none else s db)) [
      | inl failed ↦ absurd (let stuck = rw (failed, transaction) at e in cc)
      | inr (mid, passed) ↦
          transaction_keeps P fails (suc k) ss mid db' all.1
            (all.0 db mid p (eq-some_of_guard (fails k) (s db) passed))
            (rw (passed, transaction) at e)
    ]

-- So does the handler around it, whatever it answers.
pub commit_keeps :
    {R : Type 0} (P : Db → Type 0) (fails : ℕ → Bool) (ss : List Statement) (db : Db) (bad good : R)
    → All (Keeps P) ss
    → P db
    → P (commit db bad good (transaction fails 0 ss db)).0
commit_keeps P fails ss db bad good all p = elim (Option-cases (transaction fails 0 ss db)) [
  | inl failed ↦ rw failed p
  | inr (db', passed) ↦ rw passed (transaction_keeps P fails 0 ss db db' all p passed)
]

-- A transaction that commits has passed its first statement.
pub transaction_cons :
    (fails : ℕ → Bool) (k : ℕ) (s : Statement) (ss : List Statement) (db db' : Db)
    → transaction fails k (s ∷ ss) db ≡ some db'
    → (mid : Db) × (s db ≡ some mid) × (transaction fails (suc k) ss mid ≡ some db')
unfolding transaction
transaction_cons fails k s ss db db' e = elim (Option-cases (if fails k then none else s db)) [
  | inl failed ↦ absurd (let stuck = rw (failed, transaction) at e in cc)
  | inr (mid, passed) ↦
      (mid, eq-some_of_guard (fails k) (s db) passed, rw (passed, transaction) at e)
]

-- The same for a statement that is known to write `x` unless its guard refuses.
pub transaction_guard :
    (fails : ℕ → Bool) (k : ℕ) (s : Statement) (ss : List Statement) (db db' : Db) (b : Bool)
    (x : Db)
    → s db ≡ (if b then none else some x)
    → transaction fails k (s ∷ ss) db ≡ some db'
    → transaction fails (suc k) ss x ≡ some db'
transaction_guard fails k s ss db db' b x e t =
    let (mid, passed, later) = transaction_cons fails k s ss db db' t in
    subst (λ (d : Db). transaction fails (suc k) ss d ≡ some db')
      (sym (kept_by_guard-eq b x mid (sym e ∙ passed))) later

pub transaction_nil :
    (fails : ℕ → Bool) (k : ℕ) (db db' : Db) → transaction fails k [] db ≡ some db' → db ≡ db'
unfolding transaction
transaction_nil fails k db db' e = kept_by_guard-eq (fails k) db db' e
