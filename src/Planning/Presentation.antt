-- ===== src/Planning/Presentation.antt =====
-- services/planning.py: `record_version_presentation`.
use elowyn_assist.Common.{ℕ, ◌&&◌, Option, none, some, [], ◌∷◌, ◌++◌, filter, ◌==◌, if◌then◌else◌}
use elowyn_assist.Common.Json.{null, uuid, object, end, field}
use elowyn_assist.Domain.Enums.{EventType, MessageAuthor, same_message_author}
use elowyn_assist.Domain.Errors.{Result, ok, err, invalid, not_assistant_message}
use elowyn_assist.Domain.PlanningCommands.{PlanVersionPresentationCreate}
use elowyn_assist.Db.Rows.{Message}
use elowyn_assist.Db.Plans.{Plan, PlanVersion, PlanVersionPresentation}
use elowyn_assist.Db.Store.{Db}
use elowyn_assist.Mutation.{
  Action, pure, transaction_now, query, write, new_id, ◌>>=◌, ◌>>◌, scalar_one_or_none,
  atomic_domain_action, ActionContext, change, operation, append_event,
}
use elowyn_assist.Planning.Guards.{locked_version, get_message}

-- The message of a presentation must be an assistant's.
unfoldable pub assistant_message : ℕ → Db → Result Message
assistant_message i db = elim (get_message i db) [
  | none ↦ err (invalid not_assistant_message)
  | some m ↦
      if same_message_author m.author MessageAuthor.assistant
      then ok m
      else err (invalid not_assistant_message)
]

unfoldable pub present_unless :
    Plan
    → PlanVersion
    → Message
    → ActionContext
    → Option PlanVersionPresentation
    → Action PlanVersionPresentation
present_unless plan version message ctx (some existing) = pure existing
present_unless plan version message ctx none = do
  op ← operation ctx
  i ← new_id
  at ← transaction_now
  let presentation : PlanVersionPresentation = record {
    id = i;
    plan_version_id = version.id;
    message_id = message.id;
    presented_at = at;
  }
  write λ db. record db { presentations = db.presentations ++ presentation ∷ [] }
  append_event op EventType.plan_version_presented (some plan.entity_id) ctx.source (
      change "presentation" null
        (object (field "version_id" (uuid version.id) (field "message_id" (uuid message.id) end)))
      ∷ [])
  pure presentation

unfoldable pub record_version_presentation_body :
    PlanVersionPresentationCreate → ActionContext → Action PlanVersionPresentation
unfolding assistant_message present_unless
record_version_presentation_body command ctx = do
  (plan, version) ← query (locked_version command.plan_version_id)
  message ← query (assistant_message command.message_id)
  existing ← query λ db.
      scalar_one_or_none (
        filter (λ p. p.plan_version_id == version.id && p.message_id == message.id)
          db.presentations)
  present_unless plan version message ctx existing

-- `record_version_presentation`.
unfoldable pub record_version_presentation :
    PlanVersionPresentationCreate → ActionContext → Action PlanVersionPresentation
unfolding record_version_presentation_body
record_version_presentation command ctx =
    atomic_domain_action (record_version_presentation_body command ctx)
