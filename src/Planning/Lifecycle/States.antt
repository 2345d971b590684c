-- ===== src/Planning/Lifecycle/States.antt =====
-- services/planning.py: states with a valid version table, under the savepoint and the guards that
-- the operations share.
use elowyn_assist.Common.{ℕ, ◌≤◌, ◌≡◌, some, arith, find, update}
use elowyn_assist.Db.Rows.{Source, Operation, Message}
use elowyn_assist.Db.Plans.{Plan, PlanVersion}
use elowyn_assist.Db.Store.{State}
use elowyn_assist.Mutation.{
  bind_rule, query, ◌>>=◌, ActionContext, operation, settle_rule, atomic_domain_action, Action,
}
use elowyn_assist.Mutation.Frame.{Steady, operation-Quiet}
use elowyn_assist.Planning.Guards.{user_message_source, locked_version}
use elowyn_assist.Planning.Lifecycle.{IsLifecycle, by_id, IsLifecycle-mono}
use elowyn_assist.Planning.Lifecycle.History.{
  Evolved, Evolves, Evolves-refl, Evolves-trans, Evolves-replaced,
}
use elowyn_assist.Planning.Guards.Facts.{locked_version-found}

-- The version table of a state is as the schema wants it.
abbrev pub IsValid : State → Type 0
IsValid s = IsLifecycle s.next_id s.db.versions

-- From one state to the other the version table stays valid, identifiers are used up, and every
-- version is kept or evolves.
pub record Grows (s t : State) : Type 0 where
  pub valid : IsValid t
  pub used : s.next_id ≤ t.next_id
  pub kept : Evolves s.db.versions t.db.versions

pub Grows-refl : (s : State) → IsValid s → Grows s s
Grows-refl s l = record { valid = l; used = omega arith; kept = Evolves-refl s.db.versions }

pub Grows-trans : (r s t : State) → Grows r s → Grows s t → Grows r t
Grows-trans r s t g h = record {
  valid = h.valid;
  used = ground (arith, g.used, h.used);
  kept = Evolves-trans r.db.versions s.db.versions t.db.versions g.kept h.kept;
}

pub Steady-Grows : (s t : State) → Steady s t → IsValid s → Grows s t
Steady-Grows s t h l = record {
  valid = rw h.kept (IsLifecycle-mono s.db.versions h.used l);
  used = h.used;
  kept = rw h.kept (Evolves-refl s.db.versions);
}

-- One row is replaced by a later state of it.
pub replaced-Grows :
    (v w : PlanVersion) (s t : State)
    → s.next_id ≤ t.next_id
    → t.db.versions ≡ update (by_id w.id) (λ _. w) s.db.versions
    → find (by_id w.id) s.db.versions ≡ some v
    → Evolved v w
    → IsLifecycle s.next_id (update (by_id w.id) (λ _. w) s.db.versions)
    → Grows s t
replaced-Grows v w s t used e found evolved l = record {
  valid = rw e (IsLifecycle-mono _ used l);
  used = used;
  kept = rw e (Evolves-replaced s.db.versions v w found evolved);
}

-- Whatever the body does, the savepoint grows the state.
pub atomic-Grows {ℓ} :
    {A : Type ℓ} (m : Action A) (s : State)
    → IsValid s
    → Grows s (m s).1
    → Grows s (atomic_domain_action m s).1
unfolding atomic_domain_action
atomic-Grows m s l g = settle_rule (Grows s) s (m s) g (record {
  valid = IsLifecycle-mono s.db.versions g.used l;
  used = g.used;
  kept = Evolves-refl s.db.versions;
})

pub operation-Grows : (ctx : ActionContext) (s : State) → IsValid s → Grows s (operation ctx s).1
operation-Grows ctx s l =
    Steady-Grows s (operation ctx s).1 (ground (arith, operation-Quiet ctx s)) l

-- An operation and then the writes of one version.
pub with_operation-Grows :
    (ctx : ActionContext) (next : Operation → Action PlanVersion) (s : State)
    → IsValid s
    → ((op : Operation) (t : State)
        → IsValid t
        → t.db.versions ≡ s.db.versions
        → Grows t (next op t).1)
    → Grows s ((operation ctx >>= next) s).1
with_operation-Grows ctx next s l h =
    bind_rule (λ z. Grows s z.1) (operation ctx) next s
      (λ op _. Grows-trans s t (next op t).1 grown (h op t grown.valid (kept ctx s))) (λ e _. grown)
  where
    t : State
    t = (operation ctx s).1

    grown : Grows s t
    grown = operation-Grows ctx s l

    kept : (ctx : ActionContext) (s : State) → (operation ctx s).1.db.versions ≡ s.db.versions
    kept ctx s = (operation-Quiet ctx s).versions

-- The part that rejection, approval and reactivation share: the user's authority and the version.
pub authorised-Grows :
    (ctx : ActionContext) (i : ℕ)
    (next : Source × Message → Plan × PlanVersion → Action PlanVersion) (s : State)
    → IsValid s
    → ((source : Source) (message : Message) (plan : Plan) (v : PlanVersion)
        → find (by_id v.id) s.db.versions ≡ some v
        → plan.entity_id ≡ v.plan_id
        → Grows s (next (source, message) (plan, v) s).1)
    → Grows s
        ((query (user_message_source ctx.source) >>= λ from. query (locked_version i) >>= next from)
          s).1
authorised-Grows ctx i next s l h =
    bind_rule (λ z. Grows s z.1) (query (user_message_source ctx.source))
      (λ from. query (locked_version i) >>= next from) s
      (λ from _.
        bind_rule (λ z. Grows s z.1) (query (locked_version i)) (next from) s
          (λ target found.
            let (row, _, mine) = locked_version-found i s.db target.0 target.1 found in
            h from.0 from.1 target.0 target.1 row mine)
          (λ e _. Grows-refl s l))
      (λ e _. Grows-refl s l)
