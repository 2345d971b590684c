-- ===== src/WorldState/Decisions.antt =====
-- services/world_state.py: `create_decision` and `revoke_decision`.
use elowyn_assist.Common.{
  ℕ, not, Option, none, some, List, [], ◌∷◌, ◌++◌, ◌==◌, update, is_empty, if◌then◌else◌,
}
use elowyn_assist.Common.Text.{Text}
use elowyn_assist.Common.Json.{
  Json, null, name, string, uuid, object, array, Elements, none_left, element, end, field,
  optional_text, optional_uuid,
}
use elowyn_assist.Domain.Enums.{
  EntityType, EventType, DecisionStatus, same_decision_status, decision_status_value,
}
use elowyn_assist.Domain.Errors.{invalid, revoked_not_active}
use elowyn_assist.Domain.Commands.{DecisionCreate, DecisionAlternativeCreate, DecisionRevoke}
use elowyn_assist.Db.Rows.{Entity, Source, Operation, Change}
use elowyn_assist.Db.Store.{Db}
use elowyn_assist.Db.World.{Decision, DecisionAlternative}
use elowyn_assist.Mutation.{
  Action, pure, query, refuse_if, write, new_id, ◌>>=◌, ◌>>◌, atomic_domain_action, ActionContext,
  operation, change,
}
use elowyn_assist.WorldState.Guards.{put_decision, in_world, active_decision}
use elowyn_assist.WorldState.Examine.{examine_decision}
use elowyn_assist.WorldState.Events.{record_event, new_entity}

unfoldable pub dump_alternatives : List DecisionAlternativeCreate → Elements
dump_alternatives [] = none_left
dump_alternatives (a ∷ rest) =
    element
      (object (
        field "option_text" (string a.option_text)
          (field "rejection_summary" (optional_text a.rejection_summary) end)))
      (dump_alternatives rest)

-- `DecisionCreate.model_dump(mode="json")`.
abbrev pub dump_decision : DecisionCreate → Json
dump_decision c = object (
    field "title" (string c.title) (
      field "description" (optional_text c.description) (
        field "chosen_option" (string c.chosen_option) (
          field "reasoning_summary" (optional_text c.reasoning_summary) (
            field "status" (name (decision_status_value c.status)) (
              field "supersedes_decision_id" (optional_uuid c.supersedes_decision_id)
                (field "alternatives" (array (dump_alternatives c.alternatives)) end)))))))

abbrev pub new_decision : ℕ → DecisionCreate → Decision
new_decision i c = record {
  entity_id = i;
  title = c.title;
  description = c.description;
  chosen_option = c.chosen_option;
  reasoning_summary = c.reasoning_summary;
  status = c.status;
  supersedes_decision_id = c.supersedes_decision_id;
}

-- The loop over the alternatives.
unfoldable pub add_alternatives : ℕ → List DecisionAlternativeCreate → Action (Unit {0})
add_alternatives decision_id [] = pure tt
add_alternatives decision_id (a ∷ rest) = do
  i ← new_id
  let row : DecisionAlternative = record {
    id = i;
    decision_id = decision_id;
    option_text = a.option_text;
    rejection_summary = a.rejection_summary;
  }
  write (in_world λ w. record w { alternatives = w.alternatives ++ row ∷ [] })
  add_alternatives decision_id rest

abbrev pub superseded_entity : ℕ → Entity → Entity
superseded_entity i entity = record entity { superseded_by_entity_id = some i }

abbrev pub mark_superseded : ℕ → Entity → Db → Db
mark_superseded i entity db = record db {
  entities = update (λ e. e.id == entity.id) (λ _. superseded_entity i entity) db.entities;
}

-- The decision that the new one supersedes, if there is one.
unfoldable pub supersede_decision :
    Option (Decision × Entity) → ℕ → Option Source → Operation → Action (Unit {0})
unfolding record_event
supersede_decision none i source op = pure tt
supersede_decision (some (old, entity)) i source op = do
  write (in_world (put_decision (record old { status = DecisionStatus.superseded })))
  write (mark_superseded i entity)
  record_event op EventType.decision_superseded old.entity_id source (
      change "status" (name (decision_status_value old.status))
        (name (decision_status_value DecisionStatus.superseded))
      ∷ change "superseded_by_entity_id" null (uuid i)
      ∷ [])
  pure tt

-- The event of a new decision.
unfoldable pub announce_decision :
    DecisionCreate → Decision → Option Source → Operation → Action Decision
unfolding record_event dump_alternatives
announce_decision command decision source op = do
  record_event op EventType.decision_created decision.entity_id source
      (change "created" null (dump_decision command) ∷ [])
  pure decision

-- The rows of a new decision and what it supersedes.
unfoldable pub install_decision :
    DecisionCreate → Option (Decision × Entity) → Option Source → Operation → Action Decision
unfolding new_entity add_alternatives supersede_decision announce_decision
install_decision command superseded source op = do
  i ← new_entity EntityType.decision
  let decision = new_decision i command
  write (in_world λ w. record w { decisions = w.decisions ++ decision ∷ [] })
  add_alternatives i command.alternatives
  supersede_decision superseded i source op
  announce_decision command decision source op

unfoldable pub create_decision_body : DecisionCreate → ActionContext → Action Decision
unfolding examine_decision install_decision
create_decision_body command ctx = do
  superseded ← query (examine_decision command)
  op ← operation ctx
  install_decision command superseded ctx.source op

-- `create_decision`.
unfoldable pub create_decision : DecisionCreate → ActionContext → Action Decision
unfolding create_decision_body
create_decision command ctx = atomic_domain_action (create_decision_body command ctx)

-- The reason of a revocation, unless it is empty.
abbrev pub reason_change : Option Text → List Change
reason_change none = []
reason_change (some reason) =
    if is_empty reason then [] else change "revoke_reason" null (string reason) ∷ []

abbrev pub revoked : Decision → Decision
revoked decision = record decision { status = DecisionStatus.revoked }

unfoldable pub revoke_as : DecisionRevoke → Decision → Option Source → Operation → Action Decision
unfolding record_event
revoke_as command decision source op = do
  write (in_world (put_decision (revoked decision)))
  record_event op EventType.decision_revoked decision.entity_id source (
      change "status" (name (decision_status_value decision.status))
        (name (decision_status_value DecisionStatus.revoked))
      ∷ reason_change command.reason_summary)
  pure (revoked decision)

unfoldable pub revoke_decision_body : DecisionRevoke → ActionContext → Action Decision
unfolding active_decision revoke_as
revoke_decision_body command ctx = do
  decision ← query (active_decision command.entity_id)
  refuse_if (not (same_decision_status decision.status DecisionStatus.active))
      (invalid revoked_not_active)
  op ← operation ctx
  revoke_as command decision ctx.source op

-- `revoke_decision`.
unfoldable pub revoke_decision : DecisionRevoke → ActionContext → Action Decision
unfolding revoke_decision_body
revoke_decision command ctx = atomic_domain_action (revoke_decision_body command ctx)
