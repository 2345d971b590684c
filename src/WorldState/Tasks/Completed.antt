-- ===== src/WorldState/Tasks/Completed.antt =====
-- services/world_state.py: the time of completion of an updated task.
use elowyn_assist.Common.{
  ℕ, ◌≡◌, refl, sym, subst, ap, ◌∙◌, Bool, true, false, not, is_empty, Option, some, List, [], ◌++◌,
  is_some, arith,
}
use elowyn_assist.Domain.Enums.{TaskStatus, same_task_status, DeadlineType}
use elowyn_assist.Domain.Errors.{ok, invalid, no_change, integrity}
use elowyn_assist.Domain.Commands.Fields.{Sent}
use elowyn_assist.Domain.Commands.Updates.{TaskUpdate}
use elowyn_assist.Db.Rows.{Source, Operation, Change}
use elowyn_assist.Db.World.{Task}
use elowyn_assist.Db.Store.{State}
use elowyn_assist.Mutation.{
  Action, ActionContext, query, operation, refuse_if, write, pure, bind-ok, settle-ok,
  atomic_domain_action, append_event, ◌>>=◌, ◌>>◌,
}
use elowyn_assist.WorldState.Guards.{get_task, put_task, in_world}
use elowyn_assist.WorldState.Events.{record_event}
use elowyn_assist.WorldState.Fields.{Draft}
use elowyn_assist.WorldState.Completion.{stamp, stamp_change}
use elowyn_assist.WorldState.Examine.{examine_task_update}
use elowyn_assist.WorldState.Tasks.{
  assign_task, task_nulls, task_event, is_done, settle_task, apply_task_update, update_task_body,
  update_task,
}
use elowyn_assist.WorldState.Hierarchy.Found.{examine_task_update-found}

-- `ck_task_completion_consistent`.
abbrev pub IsConsistent : Task → Type 0
IsConsistent r = is_done r.status ≡ is_some r.completed_at

true_of_not : (b : Bool) → not b ≡ false → b ≡ true
true_of_not true h = refl
true_of_not false h = absurd (cc)

same_status_done : (a b : TaskStatus) → same_task_status a b ≡ true → is_done a ≡ is_done b
same_status_done a b h = ground arith

stamp-consistent :
    (changed is_final was_final : Bool) (old t : Option ℕ) (s : State)
    → (stamp changed is_final was_final old s).0 ≡ ok t
    → was_final ≡ is_some old
    → (changed ≡ false → is_final ≡ was_final)
    → is_final ≡ is_some t
unfolding stamp
stamp-consistent false f w old t s h k same = same refl ∙ (k ∙ ap is_some (cc))
stamp-consistent true true w old t s h k same = cc
stamp-consistent true false true old t s h k same = cc
stamp-consistent true false false old t s h k same = k ∙ ap is_some (cc)

settle_task-row :
    (old : Task) (draft : Draft Task) (source : Option Source) (op : Operation) (t : Option ℕ)
    (s : State) (row : Task)
    → (settle_task old draft source op t s).0 ≡ ok row
    → row ≡ record (draft.0) { completed_at = t }
unfolding settle_task record_event append_event
settle_task-row old (task, changes) source op t s row h =
    let (_, _, k) =
      bind-ok (refuse_if (is_empty all_changes) (invalid no_change)) (λ _. rest) s row h in
    cc
  where
    completed : Task
    completed = record task { completed_at = t }

    all_changes : List Change
    all_changes = changes ++ stamp_change "completed_at" old.completed_at t

    rest : Action Task
    rest = do
      write (in_world (put_task completed))
      record_event op (task_event old.status completed.status) completed.entity_id source
          all_changes
      pure completed

apply_task_update-IsConsistent :
    (c : TaskUpdate) (source : Option Source) (old : Task) (op : Operation) (s : State) (row : Task)
    → IsConsistent old
    → (apply_task_update c source old op s).0 ≡ ok row
    → IsConsistent row
unfolding apply_task_update
apply_task_update-IsConsistent c source old op s row before h =
    let (t, stamped, first) =
      bind-ok completed
        (λ t. refuse_if (task_nulls c) integrity >> settle_task old draft source op t) s row h in
    let (_, _, last) =
      bind-ok (refuse_if (task_nulls c) integrity) (λ _. settle_task old draft source op t)
        (completed s).1 row first in
    subst IsConsistent (sym (settle_task-row old draft source op t (completed s).1 row last)) (
      stamp-consistent changed (is_done draft.0.status) (is_done old.status) old.completed_at t s
        stamped before
        λ k.
          same_status_done draft.0.status old.status
            (true_of_not (same_task_status draft.0.status old.status) k))
  where
    draft : Draft Task
    draft = assign_task c source (old, [])

    changed : Bool
    changed = not (same_task_status draft.0.status old.status)

    completed : Action (Option ℕ)
    completed = stamp changed (is_done draft.0.status) (is_done old.status) old.completed_at

-- If a task has a time of completion exactly if it is done, then so has the task that an update of it
-- returns.
pub update_task-IsConsistent :
    (command : TaskUpdate) (ctx : ActionContext) (s : State) (row : Task)
    → ((old : Task) → get_task command.entity_id s.db ≡ some old → IsConsistent old)
    → (update_task command ctx s).0 ≡ ok row
    → IsConsistent row
unfolding update_task update_task_body atomic_domain_action
update_task-IsConsistent command ctx s row before h =
    let ((old, type), e, first) =
      bind-ok (query (examine_task_update command)) (λ found. operation ctx >>= applied found) s row
        (settle-ok s (update_task_body command ctx s) row h) in
    let (op, _, last) = bind-ok (operation ctx) (applied (old, type)) s row first in
    apply_task_update-IsConsistent (record command { deadline_type = type }) ctx.source old op
      (operation ctx s).1 row (before old (examine_task_update-found command s.db old type e).0)
      last
  where
    applied : Task × Sent DeadlineType → Operation → Action Task
    applied found op =
        apply_task_update (record command { deadline_type = found.1 }) ctx.source found.0 op
