-- ===== src/WorldState/Dependencies/Search.antt =====
-- The search through the dependents ends, and says whether its target can be reached.
use elowyn_assist.Common.{
  ℕ, zero, suc, Bool, true, false, not, List, [], ◌∷◌, ◌++◌, ◌==◌, ◌≡◌, ◌≤◌, ◌<◌, refl, ◌⊎◌, inl,
  inr, ◌↔◌, sym, subst, eq_of_beq, beq_refl, count, contains, length, Bool-cases, arith,
}
use elowyn_assist.Domain.Errors.{ok}
use elowyn_assist.Db.World.{TaskDependency}
use elowyn_assist.Db.Store.{Db}
use elowyn_assist.WorldState.Dependencies.{dependents, unseen, search, dependency_would_cycle}
use elowyn_assist.WorldState.Dependencies.Graph.{
  Edge, joins, Reach, here, step, Reach-trans, contains-append, contains-unseen, Edge-dependents,
  dependents-Edge,
}

-- The rows that lead to a task outside `seen`.
abbrev pending : List ℕ → List TaskDependency → ℕ
pending seen rows = count (λ (d : TaskDependency). not (contains d.dependent_task_id seen)) rows

pending_bound : (seen : List ℕ) (rows : List TaskDependency) → pending seen rows ≤ length rows
pending_bound seen [] = omega arith
pending_bound seen (d ∷ rows) = ground (arith, pending_bound seen rows)

module _ (seen more : List ℕ)
    (grows : (v : ℕ) → contains v seen ≡ true → contains v more ≡ true) where
  pending_mono : (rows : List TaskDependency) → pending more rows ≤ pending seen rows
  pending_mono [] = omega arith
  pending_mono (d ∷ rows) = ground (arith, grows d.dependent_task_id, pending_mono rows)

  -- A further row is done with if the end of an edge is seen for the first time.
  pending_lt :
      (rows : List TaskDependency) (u v : ℕ)
      → Edge rows u v
      → contains v seen ≡ false
      → contains v more ≡ true
      → pending more rows < pending seen rows
  pending_lt [] u v e h k = absurd (cc)
  pending_lt (d ∷ rows) u v e h k = elim (Bool-cases (joins u v d)) [
    | inl j ↦
        let last = eq_of_beq d.dependent_task_id v (ground arith) in
        let kept = pending_mono rows in
        rw
          (
            subst (λ i. contains i seen ≡ false) (sym last) h,
            subst (λ i. contains i more ≡ true) (sym last) k,
          )
          omega (arith, kept)
    | inr j ↦ ground (arith, grows d.dependent_task_id, pending_lt rows u v (ground arith) h k)
  ]

-- What a search comes to: nothing is reached from its frontier but the target, or the tasks it has
-- seen are closed under the edges and the target is not among them.
abbrev Outcome : List TaskDependency → ℕ → List ℕ → List ℕ → Bool → Type 0
Outcome rows target seen frontier true =
    (u : ℕ) × (contains u frontier ≡ true) × Reach rows u target
Outcome rows target seen frontier false =
    (all : List ℕ) × ((v : ℕ) → contains v (frontier ++ seen) ≡ true → contains v all ≡ true)
    × ((v w : ℕ) → contains v all ≡ true → Edge rows v w → contains w all ≡ true)
    × (contains target all ≡ false)

module _ (rows : List TaskDependency) (target : ℕ) where
  -- The edges of the seen tasks end in the seen tasks or in the frontier, and the target is unseen.
  abbrev Closed : List ℕ → List ℕ → Type 0
  Closed seen frontier =
      ((v w : ℕ) → contains v seen ≡ true → Edge rows v w → contains w (frontier ++ seen) ≡ true)
      × (contains target seen ≡ false)

  abbrev next : List ℕ → List ℕ → List ℕ
  next seen frontier = unseen (frontier ++ seen) (dependents rows frontier)

  Closed-next :
      (seen frontier : List ℕ)
      → contains target frontier ≡ false
      → Closed seen frontier
      → Closed (frontier ++ seen) (next seen frontier)
  Closed-next seen frontier h (closed, k) = (
    λ v w c e.
        let reached = closed v w in
        let found = dependents-Edge rows frontier v w in
        ground (
          arith,
          reached,
          found,
          contains-append v frontier seen,
          contains-append w (next seen frontier) (frontier ++ seen),
          contains-unseen w (frontier ++ seen) (dependents rows frontier),
        ),
    rw (contains-append target frontier seen, h) k,
  )

  -- A task of the next frontier is new, and an edge of the frontier leads to it.
  next_Edge :
      (seen frontier : List ℕ) (v : ℕ)
      → contains v (next seen frontier) ≡ true
      → (contains v (frontier ++ seen) ≡ false)
        × (u : ℕ) × (contains u frontier ≡ true)
        × Edge rows u v
  next_Edge seen frontier v h =
      let test = contains-unseen v (frontier ++ seen) (dependents rows frontier) in
      let (u, f, edge) = Edge-dependents rows frontier v (ground (arith, test)) in
      (ground (arith, test), u, f, edge)

  shrinks :
      (seen frontier : List ℕ)
      → (next seen frontier ≡ [])
        ⊎ (pending (next seen frontier ++ (frontier ++ seen)) rows
            < pending (frontier ++ seen) rows)
  shrinks seen frontier = go (next seen frontier) refl
    where
      go :
          (found : List ℕ)
          → next seen frontier ≡ found
          → (found ≡ [])
            ⊎ (pending (found ++ (frontier ++ seen)) rows < pending (frontier ++ seen) rows)
      go [] e = inl refl
      go (v ∷ found) e =
          let (fresh, u, _, edge) = next_Edge seen frontier v (rw (e, beq_refl v) refl) in
          inr (
            pending_lt (frontier ++ seen) ((v ∷ found) ++ (frontier ++ seen))
              (λ w c. ground (arith, contains-append w (v ∷ found) (frontier ++ seen))) rows u v
              edge fresh (rw (beq_refl v) refl))

  -- What the rest of the search comes to, the whole comes to.
  Outcome-next :
      (seen frontier : List ℕ) (b : Bool)
      → Outcome rows target (frontier ++ seen) (next seen frontier) b
      → Outcome rows target seen frontier b
  Outcome-next seen frontier true (v, c, path) =
      let (_, u, f, edge) = next_Edge seen frontier v c in
      (u, f, Reach-trans rows (step here edge) path)
  Outcome-next seen frontier false (full, covers, closed, miss) = (
    full,
    λ v c.
        covers v (rw (contains-append v (next seen frontier) (frontier ++ seen), c) ground arith),
    closed,
    miss,
  )

  search_decides :
      (fuel : ℕ) (seen frontier : List ℕ)
      → (frontier ≡ []) ⊎ (pending (frontier ++ seen) rows < fuel)
      → Closed seen frontier
      → (b : Bool) × (search fuel rows target seen frontier ≡ ok b)
        × Outcome rows target seen frontier b
  unfolding search
  search_decides fuel seen [] h k = (false, refl, (seen, λ v c. c, k.0, k.1))
  search_decides zero seen (x ∷ xs) h k = absurd (ground arith)
  search_decides (suc fuel) seen (x ∷ xs) h k = elim (Bool-cases (contains target (x ∷ xs))) [
    | inl e ↦ (true, rw e refl, (target, e, here))
    | inr e ↦
        let (b, ends, out) =
          search_decides fuel ((x ∷ xs) ++ seen) (next seen (x ∷ xs))
            (enough (shrinks seen (x ∷ xs)) h) (Closed-next seen (x ∷ xs) e k) in
        (b, rw e ends, Outcome-next seen (x ∷ xs) b out)
  ]
    where
      enough :
          (next seen (x ∷ xs) ≡ [])
            ⊎ (pending (next seen (x ∷ xs) ++ ((x ∷ xs) ++ seen)) rows
                < pending ((x ∷ xs) ++ seen) rows)
          → ((x ∷ xs) ≡ []) ⊎ (pending ((x ∷ xs) ++ seen) rows < suc fuel)
          → (next seen (x ∷ xs) ≡ [])
            ⊎ (pending (next seen (x ∷ xs) ++ ((x ∷ xs) ++ seen)) rows < fuel)
      enough (inl e) h = inl e
      enough (inr l) (inl e) = absurd (cc)
      enough (inr l) (inr m) = inr (omega (arith, l, m))

-- A set that is closed under the edges has what a chain leads to from it.
closed_Reach :
    (rows : List TaskDependency) (all : List ℕ) (u v : ℕ)
    → ((v w : ℕ) → contains v all ≡ true → Edge rows v w → contains w all ≡ true)
    → contains u all ≡ true
    → Reach rows u v
    → contains v all ≡ true
closed_Reach rows all u v closed c here = c
closed_Reach rows all u w closed c (step {v} path e) =
    closed v w (closed_Reach rows all u v closed c path) e

-- The search always returns. It says yes exactly if the prerequisite can be reached from the
-- dependent task by a chain of dependencies.
pub dependency_would_cycle_iff :
    (prerequisite dependent : ℕ) (db : Db)
    → (b : Bool) × (dependency_would_cycle prerequisite dependent db ≡ ok b)
      × ((b ≡ true) ↔ Reach db.world.task_dependencies dependent prerequisite)
unfolding dependency_would_cycle
dependency_would_cycle_iff p d db = elim (Bool-cases (p == d)) [
  | inl e ↦ (true, rw e refl, (λ _. subst (Reach rows d) (sym (eq_of_beq p d e)) here, λ _. refl))
  | inr e ↦
      let (b, ends, out) =
        search_decides rows p (suc (length rows)) [] (d ∷ [])
          (inr (omega (arith, pending_bound (d ∷ []) rows))) ((λ v w c. absurd (cc)), refl) in
      (b, rw e ends, decides b out)
]
  where
    rows : List TaskDependency
    rows = db.world.task_dependencies

    decides : (b : Bool) → Outcome rows p [] (d ∷ []) b → (b ≡ true) ↔ Reach rows d p
    decides true (u, c, path) =
        (λ _. subst (λ i. Reach rows i p) (eq_of_beq u d (ground arith)) path, λ _. refl)
    decides false (all, covers, closed, miss) = (
      λ h. absurd (cc),
      λ path.
          let found = closed_Reach rows all d p closed (covers d (rw (beq_refl d) refl)) path in
          absurd (cc),
    )
