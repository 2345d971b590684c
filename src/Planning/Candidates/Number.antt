-- ===== src/Planning/Candidates/Number.antt =====
-- services/planning.py: the highest number of a plan's versions.
use mathlib.Core.List.{Memᴰ}
use elowyn_assist.Common.{
  ℕ, ◌≡◌, ◌≤◌, ◌⊎◌, inl, inr, refl, sym, subst, List, [], ◌∷◌, ◌==◌, ltb, ◌&&◌, Bool-cases, arith,
}
use elowyn_assist.Db.Plans.{PlanVersion}
use elowyn_assist.Planning.Candidates.{max_number}

step_above :
    (p : ℕ) (v : PlanVersion) (vs : List PlanVersion)
    → (max_number p vs ≤ max_number p (v ∷ vs))
      × (v.plan_id ≡ p → v.version_number ≤ max_number p (v ∷ vs))
unfolding max_number
step_above p v vs = (ground arith, λ e. ground arith)

-- No version of the plan has a higher number.
pub max_number_above :
    (p : ℕ) (vs : List PlanVersion) (x : PlanVersion)
    → Memᴰ x vs
    → x.plan_id ≡ p
    → x.version_number ≤ max_number p vs
max_number_above p [] x there e = elim there [ ]
max_number_above p (v ∷ vs) x (Memᴰ.head same) e =
    let (_, top) = step_above p v vs in
    subst (λ (y : PlanVersion). y.version_number ≤ max_number p (v ∷ vs)) (sym same)
      (top (subst (λ (y : PlanVersion). y.plan_id ≡ p) same e))
max_number_above p (v ∷ vs) x (Memᴰ.tail there) e =
    let (rest, _) = step_above p v vs in
    let below = max_number_above p vs x there e in omega (arith, rest, below)

-- It is 0, or a version of the plan has it.
pub max_number_attained :
    (p : ℕ) (vs : List PlanVersion)
    → (max_number p vs ≡ 0)
      ⊎ ((x : PlanVersion) × Memᴰ x vs × (x.plan_id ≡ p) × (x.version_number ≡ max_number p vs))
unfolding max_number
max_number_attained p [] = inl refl
max_number_attained p (v ∷ vs) =
    elim (Bool-cases (v.plan_id == p && ltb (max_number p vs) v.version_number)) [
      | inl higher ↦ inr (v, Memᴰ.head refl, ground arith, ground arith)
      | inr lower ↦ elim (max_number_attained p vs) [
        | inl none_yet ↦ inl (ground arith)
        | inr (x, there, mine, top) ↦ inr (x, Memᴰ.tail there, mine, ground arith)
      ]
    ]
