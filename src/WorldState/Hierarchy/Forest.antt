-- ===== src/WorldState/Hierarchy/Forest.antt =====
-- services/world_state.py: a checked parent leaves every row below a root.
use elowyn_assist.Common.{
  ℕ, ◌≡◌, ◌≢◌, sym, subst, Option, none, some, ◌==◌, ◌∙◌, inl, inr, Bool-cases, eq_of_beq, beq_refl,
  arith,
}
use elowyn_assist.WorldState.Hierarchy.{Parents}
use elowyn_assist.WorldState.Hierarchy.Walk.{Clear, root, above}

-- From `i` up, the parents are rows, and the chain ends at a root.
pub data Grounded (up : Parents) : ℕ → Type 0 where
  at_root : {i : ℕ} → up i ≡ some none → Grounded up i
  below : {i parent : ℕ} → up i ≡ some (some parent) → Grounded up parent → Grounded up i

-- Every row is below a root, so no row is above itself.
abbrev pub IsForest : Parents → Type 0
IsForest up = (i : ℕ) (parent : Option ℕ) → up i ≡ some parent → Grounded up i

-- What the check accepts for a parent of `child`.
abbrev pub Accepted : Parents → ℕ → Option ℕ → Type 0
Accepted up child none = Unit
Accepted up child (some parent) = Clear up child parent

-- The parent of `child` alone is another one.
module _ (up new : Parents) (child : ℕ) (others : (i : ℕ) → i ≢ child → new i ≡ up i) where
  Clear-Grounded : (i : ℕ) → Clear up child i → Grounded new i
  Clear-Grounded i (root h e) = at_root (others i h ∙ e)
  Clear-Grounded i (above {parent} h e chain) = below (others i h ∙ e) (Clear-Grounded parent chain)

  Grounded-new : Grounded new child → (i : ℕ) → Grounded up i → Grounded new i
  Grounded-new g i (at_root e) = elim (Bool-cases (i == child)) [
    | inl h ↦ subst (Grounded new) (sym (eq_of_beq i child h)) g
    | inr h ↦ at_root (others i (λ k. absurd (ground (arith, beq_refl child))) ∙ e)
  ]
  Grounded-new g i (below {parent} e chain) = elim (Bool-cases (i == child)) [
    | inl h ↦ subst (Grounded new) (sym (eq_of_beq i child h)) g
    | inr h ↦
        below (others i (λ k. absurd (ground (arith, beq_refl child))) ∙ e)
          (Grounded-new g parent chain)
  ]

  Grounded-child :
      (parent : Option ℕ) → Accepted up child parent → new child ≡ some parent → Grounded new child
  Grounded-child none h e = at_root e
  Grounded-child (some parent) h e = below e (Clear-Grounded parent h)

  pub IsForest-move :
      (parent : Option ℕ)
      → Accepted up child parent
      → new child ≡ some parent
      → IsForest up
      → IsForest new
  IsForest-move parent h e f i before k = elim (Bool-cases (i == child)) [
    | inl same ↦ subst (Grounded new) (sym (eq_of_beq i child same)) (Grounded-child parent h e)
    | inr other ↦
        Grounded-new (Grounded-child parent h e) i
          (f i before (sym (others i (λ k. absurd (ground (arith, beq_refl child)))) ∙ k))
  ]
