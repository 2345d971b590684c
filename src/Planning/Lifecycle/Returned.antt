-- ===== src/Planning/Lifecycle/Returned.antt =====
-- services/planning.py: an operation that returns a version returns the row that it leaves.
use elowyn_assist.Common.{ℕ, ◌≡◌, some, find, subst}
use elowyn_assist.Domain.Errors.{Result, ok, err}
use elowyn_assist.Db.Rows.{Source, Message, Operation}
use elowyn_assist.Db.Plans.{Plan, PlanVersion}
use elowyn_assist.Db.Store.{State}
use elowyn_assist.Mutation.{Action, query, ActionContext, bind_rule, ◌>>=◌, settle, operation}
use elowyn_assist.Mutation.Frame.{operation-Quiet}
use elowyn_assist.Planning.Guards.{user_message_source, locked_version}
use elowyn_assist.Planning.Guards.Facts.{locked_version-found}
use elowyn_assist.Planning.Lifecycle.{by_id}

-- What is returned is what the table has under the identifier.
abbrev pub Returned : ℕ → Result PlanVersion × State → Type 0
Returned i out = (w : PlanVersion) → out.0 ≡ ok w → find (by_id i) out.1.db.versions ≡ some w

pub settle-Returned :
    (i : ℕ) (s : State) (out : Result PlanVersion × State)
    → Returned i out
    → Returned i (settle s out)
unfolding settle
settle-Returned i s (ok w, t) h = h
settle-Returned i s (err e, t) h = λ w k. absurd (cc)

-- Behind the lookups that every change of a version starts with.
pub authorised-Returned :
    (ctx : ActionContext) (i : ℕ) (f : Source × Message → Plan × PlanVersion → Action PlanVersion)
    (s : State)
    → ((source : Source) (message : Message) (plan : Plan) (v : PlanVersion)
        → find (by_id v.id) s.db.versions ≡ some v
        → plan.entity_id ≡ v.plan_id
        → Returned v.id (f (source, message) (plan, v) s))
    → Returned i
        ((query (user_message_source ctx.source) >>= λ from. query (locked_version i) >>= f from) s)
authorised-Returned ctx i f s next =
    bind_rule (Returned i) (query (user_message_source ctx.source))
      (λ from. query (locked_version i) >>= f from) s
      (λ (source, message) e.
        bind_rule (Returned i) (query (locked_version i)) (f (source, message)) s
          (λ (plan, v) g.
            let (found, same, mine) = locked_version-found i s.db plan v g in
            subst (λ j. Returned j (f (source, message) (plan, v) s)) same
              (next source message plan v found mine))
          (λ e g w h. absurd (cc)))
      (λ e g w h. absurd (cc))

-- Behind the operation's own row.
pub with_operation-Returned :
    (ctx : ActionContext) (v : PlanVersion) (next : Operation → Action PlanVersion) (s : State)
    → ((op : Operation) (t : State) → t.db.versions ≡ s.db.versions → Returned v.id (next op t))
    → Returned v.id ((operation ctx >>= next) s)
with_operation-Returned ctx v next s h =
    bind_rule (Returned v.id) (operation ctx) next s
      (λ op _. h op (operation ctx s).1 (operation-Quiet ctx s).versions) (λ e g w k. absurd (cc))
