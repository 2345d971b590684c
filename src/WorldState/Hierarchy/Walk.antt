-- ===== src/WorldState/Hierarchy/Walk.antt =====
-- services/world_state.py: the walk of `_validate_parent_chain` ends, and what it has seen.
use elowyn_assist.Common.{
  ℕ, zero, suc, ◌≡◌, ◌≢◌, ◌<◌, refl, true, false, Option, none, some, List, ◌∷◌, inl, inr, contains,
  Bool-cases, arith,
}
use elowyn_assist.Domain.Enums.{EntityType}
use elowyn_assist.Domain.Errors.{ok, err, fuel_spent, sequence-ok, sequence-err}
use elowyn_assist.Db.Rows.{Entity}
use elowyn_assist.Db.Store.{Db}
use elowyn_assist.WorldState.Guards.{active_entity, get_entity}
use elowyn_assist.WorldState.Hierarchy.{Parents, climb, walk}

-- From `i` up to a root, the parents are rows and none is `child`.
pub data Clear (up : Parents) (child : ℕ) : ℕ → Type 0 where
  root : {i : ℕ} → i ≢ child → up i ≡ some none → Clear up child i
  above :
      {i parent : ℕ}
      → i ≢ child
      → up i ≡ some (some parent)
      → Clear up child parent
      → Clear up child i

active_entity_ends :
    (i : ℕ) (t : Option EntityType) (db : Db) → active_entity i t db ≢ err fuel_spent
unfolding active_entity
active_entity_ends i t db h = go (get_entity i db) refl
  where
    go : (found : Option Entity) → get_entity i db ≡ found → ⊥
    go none e = absurd (ground arith)
    go (some entity) e = absurd (ground arith)

module _ (up : Parents) (db : Db) (t : EntityType) where
  -- A walk that returns has found a chain that avoids what was seen before it.
  pub walk-Clear :
      (fuel : ℕ) (seen : List ℕ) (child current : ℕ)
      → contains child seen ≡ true
      → walk fuel t up db seen current ≡ ok tt
      → Clear up child current
  unfolding walk
  walk-Clear zero seen child current c h = absurd (cc)
  walk-Clear (suc fuel) seen child current c h = elim (Bool-cases (contains current seen)) [
    | inl e ↦ absurd (ground arith)
    | inr e ↦
        let next = walk fuel t up db (current ∷ seen) in
        let (_, _, climbs) =
          sequence-ok (active_entity current (some t) db) (λ _. climb next (up current)) tt
            (ground arith) in
        go e (λ parent. walk-Clear fuel (current ∷ seen) child parent (ground arith)) (up current)
          refl climbs
  ]
    where
      go :
          contains current seen ≡ false
          → ((parent : ℕ)
              → walk fuel t up db (current ∷ seen) parent ≡ ok tt
              → Clear up child parent)
          → (found : Option (Option ℕ)) → up current ≡ found
          → climb (walk fuel t up db (current ∷ seen)) found ≡ ok tt
          → Clear up child current
      go e rest none f k = absurd (cc)
      go e rest (some none) f k = root (λ same. absurd (cc)) f
      go e rest (some (some parent)) f k = above (λ same. absurd (cc)) f (rest parent k)

  -- Each round but the last brings a row that was not seen before.
  module _ (left : List ℕ → ℕ)
      (shrinks : (seen : List ℕ) (i : ℕ) (above : Option ℕ)
        → contains i seen ≡ false
        → up i ≡ some above
        → left (i ∷ seen) < left seen) where
    pub walk_ends :
        (fuel : ℕ) (seen : List ℕ) (current : ℕ)
        → left seen < fuel
        → walk fuel t up db seen current ≢ err fuel_spent
    unfolding walk
    walk_ends zero seen current l h = absurd (omega arith)
    walk_ends (suc fuel) seen current l h = elim (Bool-cases (contains current seen)) [
      | inl e ↦ absurd (ground arith)
      | inr e ↦
          let next = walk fuel t up db (current ∷ seen) in
          elim (sequence-err (active_entity current (some t) db) (λ _. climb next (up current))
            fuel_spent (ground arith)) [
              | inl raised ↦ active_entity_ends current (some t) db raised
              | inr (_, _, climbs) ↦
                  go
                    (λ parent f k.
                      walk_ends fuel (current ∷ seen) parent
                        (omega (arith, shrinks seen current (some parent) e f)) k)
                    (up current) refl climbs
            ]
    ]
      where
        go :
            ((parent : ℕ)
              → up current ≡ some (some parent)
              → walk fuel t up db (current ∷ seen) parent ≡ err fuel_spent
              → ⊥)
            → (found : Option (Option ℕ)) → up current ≡ found
            → climb (walk fuel t up db (current ∷ seen)) found ≡ err fuel_spent
            → ⊥
        go rest none f k = cc
        go rest (some none) f k = cc
        go rest (some (some parent)) f k = rest parent f k
