-- ===== src/WorldState/Service/Building/Decisions.antt =====
-- services/world_state.py: how the operations on decisions are built.
use elowyn_assist.Common.{List, Option, [], none, not, refl, some, ℕ, ◌++◌, ◌∷◌}
use elowyn_assist.Common.Json.{name, null, uuid}
use elowyn_assist.Db.Rows.{Entity, Operation, Source}
use elowyn_assist.Db.World.{Decision, DecisionAlternative}
use elowyn_assist.Domain.Commands.{DecisionAlternativeCreate, DecisionCreate, DecisionRevoke}
use elowyn_assist.Domain.Enums.{
  DecisionStatus, EntityType, EventType, decision_status_value, same_decision_status,
}
use elowyn_assist.Domain.Errors.{invalid, revoked_not_active}
use elowyn_assist.Mutation.{ActionContext, change, write}
use elowyn_assist.WorldState.Decisions.{
  add_alternatives, announce_decision, create_decision, create_decision_body, dump_decision,
  install_decision, mark_superseded, new_decision, reason_change, revoke_as, revoke_decision,
  revoke_decision_body, revoked, supersede_decision,
}
use elowyn_assist.WorldState.Examine.{examine_decision}
use elowyn_assist.WorldState.Guards.{active_decision, put_decision}
use elowyn_assist.WorldState.Service.Building.{
  Built, atomically, entering, operating, reading, recording, refusing, returning, taking_id,
  writing, ◌>>=◌, ◌>>◌,
}
use elowyn_assist.WorldState.Service.Built.{supersedes}

pub add_alternatives-Built :
    (decision_id : ℕ) (rows : List DecisionAlternativeCreate)
    → Built (Unit {0}) (add_alternatives decision_id rows)
unfolding add_alternatives
add_alternatives-Built decision_id [] = (returning tt).1
add_alternatives-Built decision_id (a ∷ rest) =
    (do
      i ← taking_id
      let row : DecisionAlternative = record {
        id = i;
        decision_id = decision_id;
        option_text = a.option_text;
        rejection_summary = a.rejection_summary;
      }
      writing (λ w. record w { alternatives = w.alternatives ++ row ∷ [] }) (λ w. refl)
      (add_alternatives decision_id rest, add_alternatives-Built decision_id rest)).1

pub supersede_decision-Built :
    (superseded : Option (Decision × Entity)) (i : ℕ) (source : Option Source) (op : Operation)
    → Built (Unit {0}) (supersede_decision superseded i source op)
unfolding supersede_decision
supersede_decision-Built none i source op = (returning tt).1
supersede_decision-Built (some (old, entity)) i source op =
    (do
      writing ((put_decision (record old { status = DecisionStatus.superseded }))) (λ w. refl)
      (write (mark_superseded i entity), supersedes i entity)
      recording op EventType.decision_superseded old.entity_id source (
          change "status" (name (decision_status_value old.status))
            (name (decision_status_value DecisionStatus.superseded))
          ∷ change "superseded_by_entity_id" null (uuid i)
          ∷ [])
      returning tt).1

pub announce_decision-Built :
    (command : DecisionCreate) (decision : Decision) (source : Option Source) (op : Operation)
    → Built Decision (announce_decision command decision source op)
unfolding announce_decision
announce_decision-Built command decision source op =
    (do
      recording op EventType.decision_created decision.entity_id source
          (change "created" null (dump_decision command) ∷ [])
      returning decision).1

pub install_decision-Built :
    (command : DecisionCreate) (superseded : Option (Decision × Entity)) (source : Option Source)
    (op : Operation)
    → Built Decision (install_decision command superseded source op)
unfolding install_decision
install_decision-Built command superseded source op =
    (do
      i ← entering EntityType.decision
      let decision = new_decision i command
      writing (λ w. record w { decisions = w.decisions ++ decision ∷ [] }) (λ w. refl)
      (add_alternatives i command.alternatives, add_alternatives-Built i command.alternatives)
      (supersede_decision superseded i source op, supersede_decision-Built superseded i source op)
      (
        announce_decision command decision source op,
        announce_decision-Built command decision source op,
      )).1

pub create_decision_body-Built :
    (command : DecisionCreate) (ctx : ActionContext)
    → Built Decision (create_decision_body command ctx)
unfolding create_decision_body
create_decision_body-Built command ctx =
    (do
      superseded ← reading (examine_decision command)
      op ← operating ctx
      (
        install_decision command superseded ctx.source op,
        install_decision-Built command superseded ctx.source op,
      )).1

pub create_decision-Built :
    (command : DecisionCreate) (ctx : ActionContext) → Built Decision (create_decision command ctx)
unfolding create_decision
create_decision-Built command ctx =
    (atomically (create_decision_body command ctx, create_decision_body-Built command ctx)).1

pub revoke_as-Built :
    (command : DecisionRevoke) (decision : Decision) (source : Option Source) (op : Operation)
    → Built Decision (revoke_as command decision source op)
unfolding revoke_as
revoke_as-Built command decision source op =
    (do
      writing ((put_decision (revoked decision))) (λ w. refl)
      recording op EventType.decision_revoked decision.entity_id source (
          change "status" (name (decision_status_value decision.status))
            (name (decision_status_value DecisionStatus.revoked))
          ∷ reason_change command.reason_summary)
      returning (revoked decision)).1

pub revoke_decision_body-Built :
    (command : DecisionRevoke) (ctx : ActionContext)
    → Built Decision (revoke_decision_body command ctx)
unfolding revoke_decision_body
revoke_decision_body-Built command ctx =
    (do
      decision ← reading (active_decision command.entity_id)
      refusing (not (same_decision_status decision.status DecisionStatus.active))
          (invalid revoked_not_active)
      op ← operating ctx
      (revoke_as command decision ctx.source op, revoke_as-Built command decision ctx.source op)).1

pub revoke_decision-Built :
    (command : DecisionRevoke) (ctx : ActionContext) → Built Decision (revoke_decision command ctx)
unfolding revoke_decision
revoke_decision-Built command ctx =
    (atomically (revoke_decision_body command ctx, revoke_decision_body-Built command ctx)).1
