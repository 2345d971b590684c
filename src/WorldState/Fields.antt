-- ===== src/WorldState/Fields.antt =====
-- services/world_state.py: the loop of an update over its fields, one step of which compares a
-- column with the value that was sent, sets it and records the change.
pub mod Rule
use Prim.Native.String.{String}
use elowyn_assist.Common.{Bool, true, false, Option, none, some, List, [], ◌∷◌, ◌++◌, if◌then◌else◌}
use elowyn_assist.Common.Json.{Json}
use elowyn_assist.Domain.Commands.Fields.{Sent, unset, sent}
use elowyn_assist.Db.Rows.{Change}
use elowyn_assist.Mutation.{change}

-- `a == b` of values that may be `None`.
abbrev pub same_option {ℓ} : {A : Type ℓ} → (A → A → Bool) → Option A → Option A → Bool
same_option same none none = true
same_option same none (some b) = false
same_option same (some a) none = false
same_option same (some a) (some b) = same a b

-- The row, and the changes so far.
abbrev pub Draft {ℓ} : Type ℓ → Type ℓ
Draft R = R × List Change

module _ {ℓ κ} {R : Type ℓ} {A : Type κ} where
  -- A step for a column that may be NULL.
  unfoldable pub assign :
      String
      → (A → A → Bool)
      → (Option A → Json)
      → (R → Option A)
      → (Option A → R → R)
      → Sent A
      → Draft R
      → Draft R
  assign name same dump get set unset d = d
  assign name same dump get set (sent new) (row, changes) =
      if same_option same (get row) new
      then (row, changes)
      else (set new row, changes ++ change name (dump (get row)) (dump new) ∷ [])

  -- A step for a column that must not be NULL. A `None` that was sent is left to `sends_null`.
  unfoldable pub assign_value :
      String → (A → A → Bool) → (A → Json) → (R → A) → (A → R → R) → Sent A → Draft R → Draft R
  assign_value name same dump get set unset d = d
  assign_value name same dump get set (sent none) d = d
  assign_value name same dump get set (sent (some new)) (row, changes) =
      if same (get row) new
      then (row, changes)
      else (set new row, changes ++ change name (dump (get row)) (dump new) ∷ [])

-- Whether `None` was sent for a column that must not be NULL.
abbrev pub sends_null {ℓ} : {A : Type ℓ} → Sent A → Bool
sends_null unset = false
sends_null (sent none) = true
sends_null (sent (some value)) = false

-- `command.x if "x" in fields else row.x`.
abbrev pub resulting {ℓ} : {A : Type ℓ} → Sent A → Option A → Option A
resulting unset old = old
resulting (sent new) old = new
