-- ===== src/Planning/Guards/Authority.antt =====
-- services/planning.py: on whose authority a version changes.
use elowyn_assist.Common.{ℕ, ◌≡◌, ◌∙◌, Option, some, arith, find, ◌==◌}
use elowyn_assist.Domain.Enums.{SourceType, MessageAuthor}
use elowyn_assist.Domain.Errors.{ok}
use elowyn_assist.Db.Rows.{Source, Message}
use elowyn_assist.Db.Plans.{Plan, PlanVersion}
use elowyn_assist.Db.Store.{Db, State}
use elowyn_assist.Mutation.{Action, query, ActionContext, source_id_of, bind-ok, bind_runs, ◌>>=◌}
use elowyn_assist.Planning.Guards.{user_message_source, locked_version}
use elowyn_assist.Planning.Guards.Facts.{user_message_source-found, locked_version-found}
use elowyn_assist.Planning.Lifecycle.{by_id}

-- The given source is stored, and refers to a stored message of a user.
pub record IsUserWord (given : Option Source) (source : Source) (message : Message) (db : Db)
    : Type 0 where
  pub asked : source_id_of given ≡ some source.id
  pub stored : find (λ r. r.id == source.id) db.sources ≡ some source
  pub said : source.source_type ≡ SourceType.user_message
  pub refers : source.message_id ≡ some message.id
  pub kept : find (λ r. r.id == message.id) db.messages ≡ some message
  pub author : message.author ≡ MessageAuthor.user

-- Where an operation that starts with the lookups of the user's source and of the version returns
-- a value, both were found, and the rest has run.
pub authorised-ok :
    (ctx : ActionContext) (i : ℕ) (f : Source × Message → Plan × PlanVersion → Action PlanVersion)
    (s : State) (w : PlanVersion)
    → ((query (user_message_source ctx.source) >>= λ from. query (locked_version i) >>= f from) s).0
      ≡ ok w
    → (source : Source) × (message : Message) × (plan : Plan) × (v : PlanVersion) × IsUserWord
        ctx.source source message s.db
      × (find (by_id i) s.db.versions ≡ some v)
      × (plan.entity_id ≡ v.plan_id)
      × ((f (source, message) (plan, v) s).0 ≡ ok w)
      × ((query (user_message_source ctx.source) >>= λ from. query (locked_version i) >>= f from) s
          ≡ f (source, message) (plan, v) s)
authorised-ok ctx i f s w h =
    let named = query (locked_version i) in
    let ((source, message), e, k) =
      bind-ok (query (user_message_source ctx.source)) (λ from. named >>= f from) s w h in
    let ((plan, v), g, l) = bind-ok named (f (source, message)) s w k in
    let (asked, stored, said, refers, kept, author) =
      user_message_source-found ctx.source s.db source message e in
    let (found, same, mine) = locked_version-found i s.db plan v g in
    (
      source,
      message,
      plan,
      v,
      record {
        asked = asked;
        stored = stored;
        said = said;
        refers = refers;
        kept = kept;
        author = author;
      },
      ground arith,
      mine,
      l,
      bind_runs (query (user_message_source ctx.source)) (λ from. named >>= f from) s
            (source, message) e
          ∙ bind_runs named (f (source, message)) s (plan, v) g,
    )
