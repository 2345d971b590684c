-- ===== src/Planning/Guards/Facts.antt =====
-- services/planning.py: what a lookup that succeeds has found.
use elowyn_assist.Common.{
  ℕ, ◌≡◌, false, Option, none, some, arith, ◌==◌, Option-cases, inl, inr, filter, find, filter-one,
  find-holds,
}
use elowyn_assist.Domain.Enums.{MessageAuthor, SourceType, EntityType}
use elowyn_assist.Domain.Errors.{ok, err, invalid, not_user_source}
use elowyn_assist.Db.Rows.{Entity, Source, Message}
use elowyn_assist.Db.Plans.{Plan, PlanVersion}
use elowyn_assist.Db.Store.{Db}
use elowyn_assist.Mutation.{or_none-some, source_id_of}
use elowyn_assist.Planning.Guards.{
  plan_by_id, locked_version, persisted_source, user_message_of, user_message_source, get_source,
  active_typed_entity, is_inactive,
}
use elowyn_assist.Planning.Lifecycle.{by_id}

-- An active entity is in the table under its identifier, and passes the test.
pub active_typed_entity-found :
    (i : ℕ) (t : EntityType) (db : Db) (e : Entity)
    → active_typed_entity i t db ≡ ok e
    → (find (λ r. r.id == i) db.entities ≡ some e) × (is_inactive t e ≡ false)
unfolding active_typed_entity
active_typed_entity-found i t db e h = ground arith

pub plan_by_id-found : (i : ℕ) (db : Db) (p : Plan) → plan_by_id i db ≡ ok p → p.entity_id ≡ i
unfolding plan_by_id
plan_by_id-found i db p h =
    let q = λ (r : Plan). r.entity_id == i in
    ground (arith, or_none-some (filter q db.plans) p, filter-one q p db.plans)

-- The locked version is the row of the table, and the plan is its plan.
pub locked_version-found :
    (i : ℕ) (db : Db) (p : Plan) (v : PlanVersion)
    → locked_version i db ≡ ok (p, v)
    → (find (by_id v.id) db.versions ≡ some v) × (v.id ≡ i) × (p.entity_id ≡ v.plan_id)
unfolding locked_version
locked_version-found i db p v h =
    ground (arith, plan_by_id-found v.plan_id db p, find-holds (by_id i) v db.versions)

user_message_of-none :
    (from : Source) (db : Db)
    → from.message_id ≡ none
    → user_message_of from db ≡ err (invalid not_user_source)
unfolding user_message_of
user_message_of-none from db e = ground arith

user_message_of-found :
    (from source : Source) (db : Db) (m : ℕ) (message : Message)
    → from.message_id ≡ some m
    → user_message_of from db ≡ ok (source, message)
    → (source ≡ from)
      × (source.source_type ≡ SourceType.user_message)
      × (find (λ r. r.id == m) db.messages ≡ some message)
      × (message.id ≡ m)
      × (message.author ≡ MessageAuthor.user)
unfolding user_message_of
user_message_of-found from source db m message e h =
    ground (arith, find-holds (λ r. r.id == m) message db.messages)

-- The authority of a user: the given source as it is stored, of a message that a user wrote.
pub user_message_source-found :
    (given : Option Source) (db : Db) (source : Source) (message : Message)
    → user_message_source given db ≡ ok (source, message)
    → (source_id_of given ≡ some source.id)
      × (find (λ r. r.id == source.id) db.sources ≡ some source)
      × (source.source_type ≡ SourceType.user_message)
      × (source.message_id ≡ some message.id)
      × (find (λ r. r.id == message.id) db.messages ≡ some message)
      × (message.author ≡ MessageAuthor.user)
unfolding user_message_source persisted_source
user_message_source-found none db source message h = absurd (ground arith)
user_message_source-found (some sent) db source message h =
    elim (Option-cases (get_source sent.id db)) [
      | inl missing ↦ absurd (ground arith)
      | inr (from, e) ↦ elim (Option-cases from.message_id) [
        | inl unsaid ↦ absurd (ground (arith, user_message_of-none from db unsaid))
        | inr (m, f) ↦
            let g : user_message_of from db ≡ ok (source, message) = ground arith in
            let facts = user_message_of-found from source db m message f g in
            ground (arith, facts, find-holds (λ r. r.id == sent.id) from db.sources)
      ]
    ]
