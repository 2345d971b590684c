-- ===== src/WorldState/Completion.antt =====
-- services/world_state.py: the parts that the updates of tasks, projects and goals share: the type of
-- the date with the date, the time of completion, and the inference of an assessment.
pub mod Stamp
use Prim.Native.String.{String}
use elowyn_assist.Common.{
  ℕ, Bool, true, false, ◌&&◌, Option, none, some, List, [], ◌∷◌, ◌==◌, if◌then◌else◌, is_none,
  is_some,
}
use elowyn_assist.Common.Text.{text}
use elowyn_assist.Common.Json.{optional_time}
use elowyn_assist.Domain.Enums.{DeadlineType, ActorType}
use elowyn_assist.Domain.Errors.{Result, ok, err, invalid, date_missing}
use elowyn_assist.Domain.Commands.Fields.{Sent, unset, sent}
use elowyn_assist.Db.Rows.{Change, Source, Float}
use elowyn_assist.Mutation.{Action, pure, now, ◌>>=◌, change, ActionContext, source_id_of}
use elowyn_assist.WorldState.Fields.{same_option, resulting}

-- A date that is cleared takes its type with it; a type cannot be left without a date in any other
-- way. The result is the type that the update is to set.
unfoldable pub effective_type :
    Sent DeadlineType → Sent ℕ → Option DeadlineType → Option ℕ → Result (Sent DeadlineType)
effective_type type date old_type old_date =
    if is_some (resulting type old_type) && is_none (resulting date old_date)
    then elim type [
      | unset ↦ elim date [ unset ↦ err (invalid date_missing) | sent new ↦ ok (sent none) ]
      | sent new ↦ err (invalid date_missing)
    ]
    else ok type

-- The time of completion after an update: whether the status has changed, whether it is the final
-- one now, and whether it was before.
unfoldable pub stamp : Bool → Bool → Bool → Option ℕ → Action (Option ℕ)
stamp false is_final was_final old = pure old
stamp true true was_final old = do t ← now; pure (some t)
stamp true false true old = pure none
stamp true false false old = pure old

-- The change of the time of completion, if it has one.
abbrev pub stamp_change : String → Option ℕ → Option ℕ → List Change
stamp_change name old new =
    if same_option ◌==◌ old new
    then []
    else change name (optional_time old) (optional_time new) ∷ []

-- `assistant_inference_source` of this module: evidence is one source or none.
abbrev pub evidence_of : Option Source → List Source
evidence_of none = []
evidence_of (some source) = source ∷ []

abbrev pub inferred_by : Source → String → ActionContext
inferred_by inference description = record {
  actor_type = ActorType.assistant;
  source = some inference;
  description = some (text description);
  operation_id = none;
}

-- `ctx.source.confidence if ctx.source else None`.
abbrev pub confidence_of : Option Source → Option Float
confidence_of none = none
confidence_of (some source) = source.confidence

-- `ctx.source.id if value is not None and ctx.source else None`.
abbrev pub source_of_value {ℓ} : {A : Type ℓ} → Option A → Option Source → Option ℕ
source_of_value none source = none
source_of_value (some value) source = source_id_of source
