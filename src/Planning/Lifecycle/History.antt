-- ===== src/Planning/Lifecycle/History.antt =====
-- services/planning.py and the docstring of `PlanVersion` in db/models.py ("immutable content version;
-- only lifecycle and approval metadata may change"): how a version may change over time.
use elowyn_assist.Common.{
  ℕ, ◌≡◌, ◌≢◌, refl, ◌∙◌, subst, Bool, none, some, List, [], ◌∷◌, ◌++◌, arith, ◌==◌, Bool-cases,
  inl, inr, eq_of_beq, find, update, find-update_other, find-update_self, beq_refl,
}
use elowyn_assist.Domain.Enums.{PlanVersionStatus}
use elowyn_assist.Db.Plans.{PlanVersion}
use elowyn_assist.Planning.Lifecycle.{by_id}

-- `w` is a later state of the version `v`.
pub record Evolved (v w : PlanVersion) : Type 0 where
  -- Only the status and the two approval columns may differ.
  pub content : w ≡ record v {
    status = w.status;
    approval_source_id = w.approval_source_id;
    approved_at = w.approved_at;
  }
  -- The approval columns change on a candidate alone.
  pub approval :
      v.status ≢ PlanVersionStatus.candidate
      → (w.approval_source_id ≡ v.approval_source_id) × (w.approved_at ≡ v.approved_at)
  -- No version becomes a candidate again.
  pub no_return : w.status ≡ PlanVersionStatus.candidate → v.status ≡ PlanVersionStatus.candidate
  -- A rejected version stays rejected, and one superseded unapproved stays superseded.
  pub rejected : v.status ≡ PlanVersionStatus.rejected → w.status ≡ PlanVersionStatus.rejected
  pub superseded :
      v.status ≡ PlanVersionStatus.superseded
      → v.approval_source_id ≡ none
      → w.status ≡ PlanVersionStatus.superseded

pub Evolved-refl : (v : PlanVersion) → Evolved v v
Evolved-refl v = record {
  content = refl;
  approval = λ h. (refl, refl);
  no_return = λ h. h;
  rejected = λ h. h;
  superseded = λ h k. h;
}

pub Evolved-trans : (u v w : PlanVersion) → Evolved u v → Evolved v w → Evolved u w
Evolved-trans u v w h k = record {
  content = cc (h.content, k.content);
  approval = λ c.
      let a = h.approval c in let b = k.approval (λ e. c (h.no_return e)) in (b.0 ∙ a.0, b.1 ∙ a.1);
  no_return = λ e. h.no_return (k.no_return e);
  rejected = λ e. k.rejected (h.rejected e);
  superseded = λ e n. k.superseded (h.superseded e n) ((h.approval (λ c. cc)).0 ∙ n);
}

-- Every version of the one table is in the other, in a later state.
unfoldable pub Evolves : List PlanVersion → List PlanVersion → Type 0
Evolves vs ws =
    (i : ℕ) (v : PlanVersion)
    → find (by_id i) vs ≡ some v
    → (w : PlanVersion) × (find (by_id i) ws ≡ some w) × Evolved v w

pub Evolves-refl : (vs : List PlanVersion) → Evolves vs vs
unfolding Evolves
Evolves-refl vs i v h = (v, h, Evolved-refl v)

pub Evolves-trans : (us vs ws : List PlanVersion) → Evolves us vs → Evolves vs ws → Evolves us ws
unfolding Evolves
Evolves-trans us vs ws h k i u found =
    let (v, at, e) = h i u found in
    let (w, there, f) = k i v at in (w, there, Evolved-trans u v w e f)

pub Evolves-replaced :
    (vs : List PlanVersion) (v w : PlanVersion)
    → find (by_id w.id) vs ≡ some v
    → Evolved v w
    → Evolves vs (update (by_id w.id) (λ _. w) vs)
unfolding Evolves
Evolves-replaced vs v w found e i u at = elim (Bool-cases (w.id == i)) [
  | inl here ↦
      subst
        (λ j.
          find (by_id j) vs ≡ some u
          → (x : PlanVersion) × (find (by_id j) ws ≡ some x) × Evolved u x)
        (eq_of_beq w.id i here)
        (λ same.
          let o : u ≡ v = ground arith in
          (w, find-update_self (by_id w.id) v w vs found (beq_refl w.id), rw o e))
        at
  | inr elsewhere ↦ (
    u,
    find-update_other (by_id i) (by_id w.id) w vs elsewhere (λ x h. ground arith) ∙ at,
    Evolved-refl u,
  )
]
  where
    ws : List PlanVersion
    ws = update (by_id w.id) (λ _. w) vs

find-append :
    (q : PlanVersion → Bool) (v : PlanVersion) (vs ws : List PlanVersion)
    → find q vs ≡ some v
    → find q (vs ++ ws) ≡ some v
find-append q v [] ws h = absurd (cc)
find-append q v (x ∷ vs) ws h = ground (arith, find-append q v vs ws)

pub Evolves-append : (vs ws : List PlanVersion) → Evolves vs (vs ++ ws)
unfolding Evolves
Evolves-append vs ws i v h = (v, find-append (by_id i) v vs ws h, Evolved-refl v)

-- A current version may be superseded.
pub retired-Evolved :
    (v : PlanVersion)
    → v.status ≢ PlanVersionStatus.rejected
    → Evolved v (record v { status = PlanVersionStatus.superseded })
retired-Evolved v h = record {
  content = refl;
  approval = λ c. (refl, refl);
  no_return = λ e. absurd (cc);
  rejected = λ e. absurd (h e);
  superseded = λ e n. refl;
}
