-- ===== src/WorldState/Dependencies/Acyclic.antt =====
-- New dependencies that leave the graph without cycles.
use elowyn_assist.Common.{
  ℕ, Bool, List, Option, [], ◌∷◌, ◌++◌, ◌||◌, ◌≡◌, ◌<◌, ◌⊎◌, inl, inr, refl, sym, subst, any, map,
  All, Bool-cases, eq_of_beq, arith,
}
use elowyn_assist.Db.Rows.{Source}
use elowyn_assist.Db.World.{TaskDependency}
use elowyn_assist.WorldState.Tasks.{new_dependency}
use elowyn_assist.WorldState.Dependencies.Graph.{
  Edge, Acyclic, joins, Reach, here, step, Reach-trans,
}

any-append {ℓ} :
    {A : Type ℓ} (p : A → Bool) (xs ys : List A) → any p (xs ++ ys) ≡ (any p xs || any p ys)
any-append p [] ys = refl
any-append p (x ∷ xs) ys = ground (arith, any-append p xs ys)

Edge-append :
    (rows more : List TaskDependency) (u v : ℕ)
    → Edge (rows ++ more) u v
    → Edge rows u v ⊎ Edge more u v
Edge-append rows more u v e = elim (Bool-cases (any (joins u v) rows)) [
  | inl h ↦ inl h
  | inr h ↦ inr (ground (arith, any-append (joins u v) rows more))
]

-- One row is added, from `p` to `d`.
module _ (rows : List TaskDependency) (r : TaskDependency)
    (unreachable : ¬ Reach rows r.dependent_task_id r.prerequisite_task_id) where
  -- A chain uses the new row or does not.
  Reach-add :
      (u v : ℕ)
      → Reach (rows ++ r ∷ []) u v
      → Reach rows u v ⊎ (Reach rows u r.prerequisite_task_id × Reach rows r.dependent_task_id v)
  Reach-add u v here = inl here
  Reach-add u w (step {v} path e) = elim (Edge-append rows (r ∷ []) v w e) [
    | inl old ↦ elim (Reach-add u v path) [
      | inl p ↦ inl (step p old)
      | inr (p, q) ↦ inr (p, step q old)
    ]
    | inr new ↦
        let from = eq_of_beq r.prerequisite_task_id v (ground arith) in
        let to = eq_of_beq r.dependent_task_id w (ground arith) in
        elim (Reach-add u v path) [
          | inl p ↦
              inr
                (subst (Reach rows u) (sym from) p, subst (Reach rows r.dependent_task_id) to here)
          | inr (p, q) ↦ absurd (unreachable (subst (Reach rows r.dependent_task_id) (sym from) q))
        ]
  ]

  pub Acyclic-add : Acyclic rows → Acyclic (rows ++ r ∷ [])
  Acyclic-add h u v e path = elim (Edge-append rows (r ∷ []) u v e) [
    | inl old ↦ elim (Reach-add v u path) [
      | inl p ↦ h u v old p
      | inr (p, q) ↦ unreachable (Reach-trans rows (step q old) p)
    ]
    | inr new ↦
        let from = eq_of_beq r.prerequisite_task_id u (ground arith) in
        let to = eq_of_beq r.dependent_task_id v (ground arith) in
        elim (Reach-add v u path) [
          | inl p ↦ unreachable (
              subst (λ i. Reach rows i r.prerequisite_task_id) (sym to)
                (subst (Reach rows v) (sym from) p))
          | inr (p, q) ↦ unreachable (subst (Reach rows r.dependent_task_id) (sym from) q)
        ]
  ]

-- Rows from earlier tasks to a new task `n` are added.
module _ (rows : List TaskDependency) (n : ℕ) (source : Option Source) (ids : List ℕ)
    (old_rows : All (λ (d : TaskDependency). d.prerequisite_task_id < n) rows)
    (old_ids : All (λ i. i < n) ids) where
  abbrev added : List TaskDependency
  added = map (λ p. new_dependency source p n) ids

  Edge-added :
      (is : List ℕ) (u v : ℕ)
      → All (λ i. i < n) is
      → Edge (map (λ p. new_dependency source p n) is) u v
      → (u < n) × (v ≡ n)
  Edge-added [] u v h e = absurd (cc)
  Edge-added (i ∷ is) u v h e = elim (Bool-cases (joins u v (new_dependency source i n))) [
    | inl j ↦
        (subst (λ k. k < n) (eq_of_beq i u (ground arith)) h.0, sym (eq_of_beq n v (ground arith)))
    | inr j ↦ Edge-added is u v h.1 (ground arith)
  ]

  Edge-old :
      (ds : List TaskDependency) (u v : ℕ)
      → All (λ (d : TaskDependency). d.prerequisite_task_id < n) ds
      → Edge ds u v
      → u < n
  Edge-old [] u v h e = absurd (cc)
  Edge-old (d ∷ ds) u v h e = elim (Bool-cases (joins u v d)) [
    | inl j ↦ subst (λ k. k < n) (eq_of_beq d.prerequisite_task_id u (ground arith)) h.0
    | inr j ↦ Edge-old ds u v h.1 (ground arith)
  ]

  Edge-below : (u v : ℕ) → Edge (rows ++ added) u v → u < n
  Edge-below u v e = elim (Edge-append rows added u v e) [
    | inl old ↦ Edge-old rows u v old_rows old
    | inr new ↦ (Edge-added ids u v old_ids new).0
  ]

  -- A chain to an earlier task is a chain of the earlier rows, since none leads on from `n`.
  Reach-old : (u v : ℕ) → v < n → Reach (rows ++ added) u v → Reach rows u v
  Reach-old u v h here = here
  Reach-old u w h (step {v} path e) = elim (Edge-append rows added v w e) [
    | inl old ↦ step (Reach-old u v (Edge-below v w e) path) old
    | inr new ↦ absurd (let last = (Edge-added ids v w old_ids new).1 in omega (arith, last, h))
  ]

  -- Nothing but itself can be reached from `n`.
  Reach-new : (u : ℕ) → Reach rows n u → u ≡ n
  Reach-new u here = refl
  Reach-new w (step {v} path e) =
      let stays = Reach-new v path in
      let earlier = Edge-old rows v w old_rows e in absurd (omega (arith, stays, earlier))

  pub Acyclic-new : Acyclic rows → Acyclic (rows ++ added)
  Acyclic-new h u v e path = elim (Edge-append rows added u v e) [
    | inl old ↦ h u v old (Reach-old v u (Edge-below u v e) path)
    | inr new ↦
        let (earlier, last) = Edge-added ids u v old_ids new in
        let back = Reach-new u (subst (λ i. Reach rows i u) last (Reach-old v u earlier path)) in
        omega (arith, earlier, back)
  ]
