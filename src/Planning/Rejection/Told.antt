-- ===== src/Planning/Rejection/Told.antt =====
-- services/planning.py: the event that tells of the rejection of a candidate.
use mathlib.Core.List.{Memᴰ}
use elowyn_assist.Common.Json.{mentions}
use elowyn_assist.Common.{
  ℕ, Bool, true, Option, some, List, [], ◌∷◌, ◌++◌, any, is_id, ◌||◌, ◌≡◌, refl, ap, inl, inr,
  arith, Bool-cases, beq_refl,
}
use elowyn_assist.Domain.Enums.{EventType, same_event_type}
use elowyn_assist.Db.Rows.{Source, Operation, Event, Change}
use elowyn_assist.Db.Plans.{Plan, PlanVersion}
use elowyn_assist.Db.Store.{Db, State}
use elowyn_assist.Mutation.{append_event}
use elowyn_assist.Planning.Rejection.{rejects, already_rejected, reject_as}

-- `event` tells that the version was rejected on the source: its changes name the version.
pub record IsRejection (source : Source) (v : PlanVersion) (event : Event) : Type 0 where
  pub type : event.event_type ≡ EventType.plan_version_rejected
  pub plan : event.entity_id ≡ some v.plan_id
  pub by : event.source_id ≡ some source.id
  pub names : any (λ (c : Change). mentions v.id c.old || mentions v.id c.new) event.changes ≡ true

is_plan_version_rejected :
    (t : EventType)
    → same_event_type t EventType.plan_version_rejected ≡ true
    → t ≡ EventType.plan_version_rejected
is_plan_version_rejected t h = ground arith

some_of_is_id : (o : Option ℕ) (i : ℕ) → is_id o i ≡ true → o ≡ some i
some_of_is_id o i h = ground arith

any-found {ℓ} :
    {A : Type ℓ} (p : A → Bool) (xs : List A) → any p xs ≡ true → (x : A) × Memᴰ x xs × (p x ≡ true)
any-found p [] h = absurd (cc)
any-found p (x ∷ xs) h = elim (Bool-cases (p x)) [
  | inl holds ↦ (x, Memᴰ.head refl, holds)
  | inr fails ↦ let (y, there, holds) = any-found p xs (ground arith) in (y, Memᴰ.tail there, holds)
]

pub already_rejected-event :
    (source : Source) (v : PlanVersion) (db : Db)
    → already_rejected v.plan_id source.id v.id db ≡ true
    → (event : Event) × Memᴰ event db.events × IsRejection source v event
unfolding already_rejected
already_rejected-event source v db h =
    let (event, there, holds) = any-found (rejects v.plan_id source.id v.id) db.events h in
    (
      event,
      there,
      record {
        type = is_plan_version_rejected event.event_type (ground arith);
        plan = some_of_is_id event.entity_id v.plan_id (ground arith);
        by = some_of_is_id event.source_id source.id (ground arith);
        names = ground arith;
      },
    )

pub reject_as-event :
    (plan : Plan) (v : PlanVersion) (source : Source) (op : Operation) (s : State)
    → plan.entity_id ≡ v.plan_id
    → (event : Event) × ((reject_as plan v source op s).1.db.events ≡ s.db.events ++ event ∷ [])
      × IsRejection source v event
unfolding reject_as append_event mentions
reject_as-event plan v source op s mine = (
  _,
  refl,
  record { type = refl; plan = ap some mine; by = refl; names = ground (arith, beq_refl v.id) },
)
