-- ===== src/Rbac/Branches.antt =====
-- What holds after each branch of a handler, if it holds of the state that the branch leaves.
use lightai_go.Common.{◌≡◌, refl, Bool, true, false, not, Option, none, some, if◌then◌else◌}
use lightai_go.Auth.{AuthDb}
use lightai_go.Auth.Middleware.{Reply}
use lightai_go.Rbac.{Inserted, inserted, not_unique, refused}
use lightai_go.Rbac.Memberships.{or_rollback}
use lightai_go.Rbac.Roles.{deleted}

-- A test that denies, or the rest: what holds of the old state and of the rest's holds after.
pub unless_holds {ℓ} :
    {R : Type 0} (P : AuthDb → Type ℓ) (b : Bool) (bad good : AuthDb × Reply R)
    → P bad.0
    → (b ≡ false → P good.0)
    → P (if b then bad else good).0
unless_holds P true bad good h k = h
unless_holds P false bad good h k = k refl

pub option_holds {ℓ κ} :
    {R : Type 0} {B : Type κ} (P : AuthDb → Type ℓ) (o : Option B) (bad : AuthDb × Reply R)
    (good : B → AuthDb × Reply R)
    → P bad.0
    → ((b : B) → o ≡ some b → P (good b).0)
    → P (elim o as (λ x. AuthDb × Reply R) [ none ↦ bad | some b ↦ good b ]).0
option_holds P none bad good h k = h
option_holds P (some b) bad good h k = k b refl

pub none_holds {ℓ κ} :
    {R : Type 0} {B : Type κ} (P : AuthDb → Type ℓ) (o : Option B) (good : AuthDb × Reply R)
    (bad : B → AuthDb × Reply R)
    → ((b : B) → P (bad b).0)
    → (o ≡ none → P good.0)
    → P (elim o as (λ x. AuthDb × Reply R) [ none ↦ good | some b ↦ bad b ]).0
none_holds P none good bad h k = k refl
none_holds P (some b) good bad h k = h b

pub when_holds {ℓ} :
    {R : Type 0} (P : AuthDb → Type ℓ) (b : Bool) (good bad : AuthDb × Reply R)
    → P bad.0
    → (b ≡ true → P good.0)
    → P (if b then good else bad).0
when_holds P true good bad h k = k refl
when_holds P false good bad h k = h

pub not_holds {ℓ} :
    {R : Type 0} (P : AuthDb → Type ℓ) (b : Bool) (bad good : AuthDb × Reply R)
    → P bad.0
    → (b ≡ true → P good.0)
    → P (if not b then bad else good).0
not_holds P true bad good h k = k refl
not_holds P false bad good h k = h

pub rollback_holds {ℓ} :
    {A : Type 0} (P : AuthDb → Type ℓ) (old : AuthDb) (a : A) (o : Option AuthDb)
    → P old
    → ((after : AuthDb) → o ≡ some after → P after)
    → P (or_rollback old a o).0
rollback_holds P old a none h k = h
rollback_holds P old a (some after) h k = k after refl

pub deleted_holds {ℓ} :
    (P : AuthDb → Type ℓ) (old : AuthDb) (o : Option AuthDb)
    → P old
    → ((after : AuthDb) → o ≡ some after → P after)
    → P (deleted old o).0
deleted_holds P old none h k = h
deleted_holds P old (some after) h k = k after refl

pub inserted_holds {ℓ} :
    {R : Type 0} (P : AuthDb → Type ℓ) (o : Inserted) (taken other : AuthDb × Reply R)
    (good : AuthDb → AuthDb × Reply R)
    → P taken.0
    → P other.0
    → ((db : AuthDb) → o ≡ inserted db → P (good db).0)
    → P
        (elim o as (λ x. AuthDb × Reply R) [
          | not_unique ↦ taken
          | refused ↦ other
          | inserted db ↦ good db
        ]).0
inserted_holds P not_unique taken other good h i k = h
inserted_holds P refused taken other good h i k = i
inserted_holds P (inserted db) taken other good h i k = k db refl
