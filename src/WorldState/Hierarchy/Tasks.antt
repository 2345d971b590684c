-- ===== src/WorldState/Hierarchy/Tasks.antt =====
-- services/world_state.py: an update of a task leaves every task below a root.
use elowyn_assist.Common.{
  ℕ, ◌≡◌, ◌≢◌, sym, subst, ap, fun_ext, Bool, false, not, is_empty, Option, some, List, [], ◌==◌,
  ◌++◌, ◌∙◌, ◌⊎◌, inl, inr, Bool-cases, eq_of_beq, beq_refl, find, find-update_other,
  find-update_self, find-holds,
}
use elowyn_assist.Domain.Enums.{same_task_status, DeadlineType}
use elowyn_assist.Domain.Errors.{ok, integrity, invalid, no_change}
use elowyn_assist.Domain.Commands.Fields.{Sent, sent}
use elowyn_assist.Domain.Commands.Updates.{TaskUpdate}
use elowyn_assist.Db.Rows.{Source, Operation, Change}
use elowyn_assist.Db.World.{Task}
use elowyn_assist.Db.Store.{Db, State}
use elowyn_assist.Mutation.{
  Action, ActionContext, query, operation, refuse_if, bind_rule, settle_rule, write, pure,
  atomic_domain_action, append_event, ◌>>=◌, ◌>>◌,
}
use elowyn_assist.WorldState.Guards.{get_task, put_task, in_world}
use elowyn_assist.WorldState.Events.{record_event}
use elowyn_assist.WorldState.Fields.{Draft}
use elowyn_assist.WorldState.Completion.{stamp, stamp_change}
use elowyn_assist.WorldState.Examine.{examine_task_update}
use elowyn_assist.WorldState.Tasks.{
  assign_task, task_event, task_nulls, is_done, settle_task, apply_task_update, update_task_body,
  update_task,
}
use elowyn_assist.WorldState.Hierarchy.{Parents, parent_column, task_parents}
use elowyn_assist.WorldState.Hierarchy.Found.{examine_task_update-found}
use elowyn_assist.WorldState.Hierarchy.TaskFields.{assign_task-parent}
use elowyn_assist.WorldState.Hierarchy.Forest.{IsForest, Accepted, IsForest-move}
use elowyn_assist.WorldState.Completion.Stamp.{stamp-db}

-- A task is written back with another parent, an accepted one, or with the one it had.
put_task-IsForest :
    (old row : Task) (db : Db)
    → get_task old.entity_id db ≡ some old
    → row.entity_id ≡ old.entity_id
    → (row.parent_task_id ≡ old.parent_task_id)
      ⊎ Accepted (task_parents db) old.entity_id row.parent_task_id
    → IsForest (task_parents db)
    → IsForest (task_parents (in_world (put_task row) db))
put_task-IsForest old row db found same moved f = elim moved [
  | inl kept ↦
      subst IsForest
        (sym (
          fun_ext λ i. elim (Bool-cases (row.entity_id == i)) [
            | inl e ↦
                let child = eq_of_beq row.entity_id i e in
                subst (λ j. new j ≡ up j) child (self ∙ (ap some kept ∙ sym before))
            | inr e ↦ others i e
          ]))
        f
  | inr accepted ↦
      IsForest-move up new row.entity_id (λ i h. others i (differs i h)) row.parent_task_id
        (subst (λ j. Accepted up j row.parent_task_id) (sym same) accepted) self f
]
  where
    up : Parents
    up = task_parents db

    new : Parents
    new = task_parents (in_world (put_task row) db)

    there : find (λ (r : Task). r.entity_id == row.entity_id) db.world.tasks ≡ some old
    there = subst (λ j. get_task j db ≡ some old) (sym same) found

    before : up row.entity_id ≡ some old.parent_task_id
    before = ap (parent_column λ (r : Task). r.parent_task_id) there

    self : new row.entity_id ≡ some row.parent_task_id
    self = ap (parent_column λ (r : Task). r.parent_task_id) (
        find-update_self (λ (r : Task). r.entity_id == row.entity_id) old row db.world.tasks there
          (beq_refl row.entity_id))

    differs : (i : ℕ) → i ≢ row.entity_id → (row.entity_id == i) ≡ false
    differs i h = elim (Bool-cases (row.entity_id == i)) [
      | inl e ↦ absurd (h (sym (eq_of_beq row.entity_id i e)))
      | inr e ↦ e
    ]

    others : (i : ℕ) → (row.entity_id == i) ≡ false → new i ≡ up i
    others i e = ap (parent_column λ (r : Task). r.parent_task_id) (
        find-update_other (λ (r : Task). r.entity_id == i) (λ r. r.entity_id == row.entity_id) row
          db.world.tasks e
          λ r k. subst (λ j. (j == i) ≡ false) (sym (eq_of_beq r.entity_id row.entity_id k)) e)

abbrev Forested : State → Type 0
Forested t = IsForest (task_parents t.db)

-- The row and the event of an update.
settle_task-IsForest :
    (old : Task) (draft : Draft Task) (source : Option Source) (op : Operation)
    (completed_at : Option ℕ) (s : State)
    → get_task old.entity_id s.db ≡ some old
    → draft.0.entity_id ≡ old.entity_id
    → (draft.0.parent_task_id ≡ old.parent_task_id)
      ⊎ Accepted (task_parents s.db) old.entity_id draft.0.parent_task_id
    → Forested s
    → Forested (settle_task old draft source op completed_at s).1
unfolding settle_task record_event append_event
settle_task-IsForest old (row, changes) source op completed_at s found same moved f =
    bind_rule (λ out. Forested out.1) (refuse_if (is_empty all_changes) (invalid no_change))
      (λ _. rest) s (λ _ _. put_task-IsForest old task s.db found same moved f) (λ _ _. f)
  where
    task : Task
    task = record row { completed_at = completed_at }

    all_changes : List Change
    all_changes = changes ++ stamp_change "completed_at" old.completed_at completed_at

    rest : Action Task
    rest = do
      write (in_world (put_task task))
      record_event op (task_event old.status task.status) task.entity_id source all_changes
      pure task

apply_task_update-IsForest :
    (c : TaskUpdate) (source : Option Source) (old : Task) (op : Operation) (s : State)
    → get_task old.entity_id s.db ≡ some old
    → ((parent : Option ℕ)
        → c.parent_task_id ≡ sent parent
        → Accepted (task_parents s.db) old.entity_id parent)
    → Forested s
    → Forested (apply_task_update c source old op s).1
unfolding apply_task_update
apply_task_update-IsForest c source old op s found accepted f =
    bind_rule (λ out. Forested out.1) completed
      (λ t. refuse_if (task_nulls c) integrity >> settle_task old draft source op t) s
      (λ t _.
        bind_rule (λ out. Forested out.1) (refuse_if (task_nulls c) integrity)
          (λ _. settle_task old draft source op t) (completed s).1 (λ _ _. settled t)
          (λ _ _. there f))
      (λ _ _. there f)
  where
    draft : Draft Task
    draft = assign_task c source (old, [])

    changed : Bool
    changed = not (same_task_status draft.0.status old.status)

    completed : Action (Option ℕ)
    completed = stamp changed (is_done draft.0.status) (is_done old.status) old.completed_at

    kept : (completed s).1.db ≡ s.db
    kept = stamp-db changed (is_done draft.0.status) (is_done old.status) old.completed_at s

    there : Forested s → Forested (completed s).1
    there = subst (λ (db : Db). IsForest (task_parents db)) (sym kept)

    Moves : Option ℕ → Type 0
    Moves parent =
        (parent ≡ old.parent_task_id)
        ⊎ Accepted (task_parents (completed s).1.db) old.entity_id parent

    moved :
        (parent : Option ℕ)
        → (parent ≡ old.parent_task_id) ⊎ (c.parent_task_id ≡ sent parent)
        → Moves parent
    moved parent (inl same) = inl same
    moved parent (inr e) = inr (
        subst (λ (db : Db). Accepted (task_parents db) old.entity_id parent) (sym kept)
          (accepted parent e))

    settled : (t : Option ℕ) → Forested (settle_task old draft source op t (completed s).1).1
    settled t =
        let (same, parents) = assign_task-parent c source old in
        settle_task-IsForest old draft source op t (completed s).1
          (subst (λ (db : Db). get_task old.entity_id db ≡ some old) (sym kept) found) same
          (moved draft.0.parent_task_id parents) (there f)

-- Every update of a task, whether it returns or raises, leaves every task below a root if every task
-- was: the parents of each task are tasks, and no task is above itself.
pub update_task-IsForest :
    (command : TaskUpdate) (ctx : ActionContext) (s : State)
    → IsForest (task_parents s.db)
    → IsForest (task_parents (update_task command ctx s).1.db)
unfolding update_task update_task_body atomic_domain_action operation
update_task-IsForest command ctx s f =
    settle_rule Forested s (update_task_body command ctx s)
      (bind_rule (λ out. Forested out.1) (query (examine_task_update command))
        (λ found. operation ctx >>= applied found) s
        (λ found e.
          bind_rule (λ out. Forested out.1) (operation ctx) (applied found) s
            (λ op _. changed found op e) (λ _ _. f))
        (λ _ _. f))
      f
  where
    applied : Task × Sent DeadlineType → Operation → Action Task
    applied found op =
        apply_task_update (record command { deadline_type = found.1 }) ctx.source found.0 op

    changed :
        (found : Task × Sent DeadlineType) (op : Operation)
        → examine_task_update command s.db ≡ ok found
        → Forested (applied found op (operation ctx s).1).1
    changed (task, type) op e =
        let (row, accepted) = examine_task_update-found command s.db task type e in
        let named =
          eq_of_beq task.entity_id command.entity_id (
            find-holds (λ (r : Task). r.entity_id == command.entity_id) task s.db.world.tasks
              row) in
        apply_task_update-IsForest (record command { deadline_type = type }) ctx.source task op
          (operation ctx s).1 (subst (λ i. get_task i s.db ≡ some task) (sym named) row)
          (λ parent k.
            subst (λ i. Accepted (task_parents s.db) i parent) (sym named) (accepted parent k))
          f
