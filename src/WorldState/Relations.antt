-- ===== src/WorldState/Relations.antt =====
-- services/world_state.py: `create_relation` and `infer_relation`.
use elowyn_assist.Common.{ℕ, Bool, ◌&&◌, Option, none, some, [], ◌∷◌, ◌++◌, ◌==◌, filter}
use elowyn_assist.Common.Json.{null, uuid, name, object, end, field}
use elowyn_assist.Domain.Enums.{EventType, same_relation_type, relation_type_value}
use elowyn_assist.Domain.Commands.{EntityRelationCreate, check_relation}
use elowyn_assist.Domain.Commands.Assessments.{EntityRelationInference}
use elowyn_assist.Db.Rows.{Source}
use elowyn_assist.Db.World.{EntityRelation}
use elowyn_assist.Mutation.{
  Action, pure, query, write, new_id, ◌>>=◌, ◌>>◌, scalar_one_or_none, atomic_domain_action,
  ActionContext, operation, source_id_of, change, assistant_inference_source,
}
use elowyn_assist.WorldState.Guards.{in_world, active_entity}
use elowyn_assist.WorldState.Events.{record_event}
use elowyn_assist.WorldState.Completion.{evidence_of, inferred_by, confidence_of}

abbrev pub same_relation : EntityRelationCreate → EntityRelation → Bool
same_relation c r =
    r.source_entity_id == c.source_entity_id
    && r.target_entity_id == c.target_entity_id
    && same_relation_type r.relation_type c.relation_type

abbrev pub new_relation : ℕ → EntityRelationCreate → Option Source → EntityRelation
new_relation i c source = record {
  id = i;
  source_entity_id = c.source_entity_id;
  target_entity_id = c.target_entity_id;
  relation_type = c.relation_type;
  source_id = source_id_of source;
  confidence = confidence_of source;
}

unfoldable pub relate_now :
    EntityRelationCreate → ActionContext → Option EntityRelation → Action EntityRelation
unfolding record_event
relate_now c ctx (some existing) = pure existing
relate_now c ctx none = do
  op ← operation ctx
  i ← new_id
  let relation = new_relation i c ctx.source
  write (in_world λ w. record w { relations = w.relations ++ relation ∷ [] })
  record_event op EventType.relation_created c.source_entity_id ctx.source (
      change "entity_relation" null (
        object (
          field "source_entity_id" (uuid c.source_entity_id) (
            field "target_entity_id" (uuid c.target_entity_id)
              (field "relation_type" (name (relation_type_value c.relation_type)) end))))
      ∷ [])
  pure relation

unfoldable pub create_relation_body : EntityRelationCreate → ActionContext → Action EntityRelation
unfolding active_entity relate_now
create_relation_body c ctx = do
  query (active_entity c.source_entity_id none)
  query (active_entity c.target_entity_id none)
  existing ← query λ db. scalar_one_or_none (filter (same_relation c) db.world.relations)
  relate_now c ctx existing

-- `create_relation`.
unfoldable pub create_relation : EntityRelationCreate → ActionContext → Action EntityRelation
unfolding create_relation_body
create_relation c ctx = atomic_domain_action (create_relation_body c ctx)

abbrev pub inferred_relation : EntityRelationInference → EntityRelationCreate
inferred_relation c = record {
  source_entity_id = c.source_entity_id;
  target_entity_id = c.target_entity_id;
  relation_type = c.relation_type;
}

unfoldable pub infer_relation_body : EntityRelationInference → Option Source → Action EntityRelation
unfolding create_relation check_relation
infer_relation_body c evidence = do
  inference ← assistant_inference_source c.confidence c.reason_summary (evidence_of evidence)
  relation ← query λ db. check_relation (inferred_relation c)
  create_relation relation (inferred_by inference "Elowyn semantic relation inference")

-- `infer_relation`.
unfoldable pub infer_relation : EntityRelationInference → Option Source → Action EntityRelation
unfolding infer_relation_body
infer_relation c evidence = atomic_domain_action (infer_relation_body c evidence)
