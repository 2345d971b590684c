-- ===== src/Planning/Lifecycle/Log.antt =====
-- services/planning.py: the events of an operation behind the lookups and the operation's row.
use elowyn_assist.Common.{ℕ, refl}
use elowyn_assist.Db.Rows.{Source, Operation, Message}
use elowyn_assist.Db.Plans.{Plan, PlanVersion}
use elowyn_assist.Db.Store.{State}
use elowyn_assist.Mutation.{Action, ActionContext}
use elowyn_assist.Mutation.Log.{Logs-bind, Logs, Logs-silent, Logging, operation-Logging}
use elowyn_assist.Mutation.{query, ◌>>=◌, operation}
use elowyn_assist.Planning.Guards.{user_message_source, locked_version}

-- The operation's row, and then the writes.
pub with_operation-Logs :
    (ctx : ActionContext) (next : Operation → Action PlanVersion) (s : State)
    → ((op : Operation) (t : State) → Logs t (next op t).1)
    → Logs s ((operation ctx >>= next) s).1
with_operation-Logs ctx next s h =
    Logs-bind (operation ctx) next s ((operation-Logging ctx).logs s) h

pub authorised-Logging :
    (ctx : ActionContext) (i : ℕ) (f : Source × Message → Plan × PlanVersion → Action PlanVersion)
    → ((source : Source) (message : Message) (plan : Plan) (v : PlanVersion) (s : State)
        → Logs s (f (source, message) (plan, v) s).1)
    → Logging
        (query (user_message_source ctx.source) >>= λ from. query (locked_version i) >>= f from)
authorised-Logging ctx i f h = record {
  logs = λ s.
      Logs-bind (query (user_message_source ctx.source))
        (λ from. query (locked_version i) >>= f from) s (Logs-silent s s refl refl)
        λ (source, message) t.
          Logs-bind (query (locked_version i)) (f (source, message)) t (Logs-silent t t refl refl)
            λ (plan, v). h source message plan v;
}
