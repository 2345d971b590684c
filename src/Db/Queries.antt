-- ===== src/Db/Queries.antt =====
-- The queries that take the latest event: `order_by(created_at.desc(), id.desc()).limit(1)`.
pub mod Latest
use elowyn_assist.Common.{
  Bool, ◌&&◌, ◌||◌, Option, none, some, List, [], ◌∷◌, ltb, ◌==◌, if◌then◌else◌,
}
use elowyn_assist.Db.Rows.{Event}

-- The order of `created_at` and `id`, both descending: whether `a` stands behind `b`.
abbrev pub behind : Event → Event → Bool
behind a b = ltb a.created_at b.created_at || (a.created_at == b.created_at && ltb a.id b.id)

abbrev pub later : Event → Option Event → Event
later e none = e
later e (some best) = if behind e best then best else e

-- The latest event that passes a test.
unfoldable pub latest : (Event → Bool) → List Event → Option Event
latest p [] = none
latest p (e ∷ es) = let best = latest p es in if p e then some (later e best) else best
