-- ===== src/Domain/Errors.antt =====
-- domain/errors.py, and the exceptions of the database layer that the services let through.
use elowyn_assist.Common.{◌≡◌, refl, ap, ◌⊎◌, inl, inr, Bool, true, false, Option, none, some}

-- The message of a `DomainValidationError` raised by the services.
pub data Reason : Type 0 where
  source_not_persisted source_missing not_user_source not_user_message : Reason
  cyclic_items different_goal_role second_primary_goal : Reason
  foreign_base_version goal_without_event foreign_basis_event evidence_missing : Reason
  bad_confidence blank_reason : Reason
  not_assistant_message not_candidate not_presented missing_strategy : Reason
  not_formerly_approved no_approved_version : Reason
  not_approved_version progress_missing : Reason
  not_current_user_message selector_count : Reason
  self_parent cyclic_hierarchy date_missing no_change cyclic_dependency : Reason
  superseding_not_active superseded_not_active revoked_not_active : Reason
  nothing_to_undo irreversible_criterion irreversible_field : Reason

-- The `ValueError` that a command's validators raise, a limit of its `Field`s among them.
pub data Problem : Type 0 where
  out_of_range blank duplicate_goals several_primary_goals : Problem
  self_reference duplicate_items duplicate_ordinals duplicate_dependencies : Problem
  unknown_item duplicate_basis duplicate_evidence : Problem
  nothing_changed type_without_date null_status unknown_value : Problem

-- What an `EntityNotFoundError` names.
pub data Kind : Type 0 where
  entity plan goal task version item project decision criterion : Kind

pub data Error : Type 0 where
  invalid : Reason → Error
  not_found : Kind → Error
  value_error : Problem → Error
  -- SQLAlchemy's `MultipleResultsFound` and `NoResultFound`, and Python's `KeyError`.
  multiple_results no_result key_error : Error
  -- Its `IntegrityError`, where a column that must not be NULL is.
  integrity : Error
  -- No exception of the program: a loop of the model used up its rounds.
  fuel_spent : Error

pub data Result {ℓ} (A : Type ℓ) : Type ℓ where
  ok : A → Result A
  err : Error → Result A

infixl 5 ◌>>=◌ ◌>>◌
abbrev pub ◌>>=◌ {ℓ κ} : {A : Type ℓ} {B : Type κ} → Result A → (A → Result B) → Result B
ok a >>= f = f a
err e >>= f = err e

abbrev pub ◌>>◌ {ℓ κ} : {A : Type ℓ} {B : Type κ} → Result A → Result B → Result B
m >> k = m >>= λ _. k

-- `if test: raise error`.
abbrev pub raise_if : Bool → Error → Result (Unit {0})
raise_if true e = err e
raise_if false e = ok tt

abbrev pub or_raise {ℓ} : {A : Type ℓ} → Error → Option A → Result A
or_raise e none = err e
or_raise e (some a) = ok a

pub Result-cases {ℓ} :
    {A : Type ℓ} (r : Result A) → ((e : Error) × (r ≡ err e)) ⊎ ((a : A) × (r ≡ ok a))
Result-cases (ok a) = inr (a, refl)
Result-cases (err e) = inl (e, refl)

-- Where a sequence returns a value, both parts do.
pub sequence-ok {ℓ κ} :
    {A : Type ℓ} {B : Type κ} (r : Result A) (f : A → Result B) (b : B)
    → (r >>= f) ≡ ok b
    → (a : A) × (r ≡ ok a) × (f a ≡ ok b)
sequence-ok (ok a) f b h = (a, refl, h)
sequence-ok (err e) f b h = absurd (cc)

-- Where it raises, one of them does.
pub sequence-err {ℓ κ} :
    {A : Type ℓ} {B : Type κ} (r : Result A) (f : A → Result B) (e : Error)
    → (r >>= f) ≡ err e
    → (r ≡ err e) ⊎ ((a : A) × (r ≡ ok a) × (f a ≡ err e))
sequence-err (ok a) f e h = inr (a, refl, h)
sequence-err (err d) f e h = inl (ap err (cc))
