-- ===== src/WorldState/Fields/Rule.antt =====
-- services/world_state.py: a property of the row is kept by a step of an update if it is kept when
-- the sent value is set.
use Prim.Native.String.{String}
use elowyn_assist.Common.{◌≡◌, refl, Bool, Option, none, some, inl, inr, Bool-cases}
use elowyn_assist.Common.Json.{Json}
use elowyn_assist.Domain.Commands.Fields.{Sent, unset, sent}
use elowyn_assist.WorldState.Fields.{Draft, same_option, assign, assign_value}

module _ {ℓ κ ν} {R : Type ℓ} {A : Type κ} (Q : R → Type ν) where
  pub assign_rule :
      (name : String) (same : A → A → Bool) (dump : Option A → Json) (get : R → Option A)
      (set : Option A → R → R) (value : Sent A) (d : Draft R)
      → ((x : Option A) (r : R) → value ≡ sent x → Q r → Q (set x r))
      → Q d.0
      → Q (assign name same dump get set value d).0
  unfolding assign
  assign_rule name same dump get set unset d h q = q
  assign_rule name same dump get set (sent new) (row, changes) h q =
      elim (Bool-cases (same_option same (get row) new)) [
        | inl e ↦ rw e q
        | inr e ↦ rw e (h new row refl q)
      ]

  pub assign_value_rule :
      (name : String) (same : A → A → Bool) (dump : A → Json) (get : R → A) (set : A → R → R)
      (value : Sent A) (d : Draft R)
      → ((x : A) (r : R) → value ≡ sent (some x) → Q r → Q (set x r))
      → Q d.0
      → Q (assign_value name same dump get set value d).0
  unfolding assign_value
  assign_value_rule name same dump get set unset d h q = q
  assign_value_rule name same dump get set (sent none) d h q = q
  assign_value_rule name same dump get set (sent (some new)) (row, changes) h q =
      elim (Bool-cases (same (get row) new)) [ inl e ↦ rw e q | inr e ↦ rw e (h new row refl q) ]

  -- The steps on drafts whose rows have the property.
  abbrev pub good :
      (name : String) (same : A → A → Bool) (dump : Option A → Json) (get : R → Option A)
      (set : Option A → R → R) (value : Sent A)
      → ((x : Option A) (r : R) → value ≡ sent x → Q r → Q (set x r))
      → (d : Draft R) × Q d.0
      → (d : Draft R) × Q d.0
  good name same dump get set value h d =
      (assign name same dump get set value d.0, assign_rule name same dump get set value d.0 h d.1)

  abbrev pub good_value :
      (name : String) (same : A → A → Bool) (dump : A → Json) (get : R → A) (set : A → R → R)
      (value : Sent A)
      → ((x : A) (r : R) → value ≡ sent (some x) → Q r → Q (set x r))
      → (d : Draft R) × Q d.0
      → (d : Draft R) × Q d.0
  good_value name same dump get set value h d = (
    assign_value name same dump get set value d.0,
    assign_value_rule name same dump get set value d.0 h d.1,
  )
