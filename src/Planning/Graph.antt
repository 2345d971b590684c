-- ===== src/Planning/Graph.antt =====
-- services/planning.py: `_assert_acyclic`, Kahn's algorithm over the items of a candidate. The two
-- dictionaries have the items for keys, so they are functions behind a test of the key.
use elowyn_assist.Common.{
  ℕ, zero, suc, ◌+◌, ◌-◌, ◌&&◌, Option, none, some, List, [], ◌∷◌, ◌++◌, leb, ◌==◌, if◌then◌else◌,
  filter, length, contains,
}
use elowyn_assist.Domain.Errors.{Result, ok, err, invalid, cyclic_items, key_error, fuel_spent}
use elowyn_assist.Domain.PlanningCommands.{Edge}

-- `sorted`, by insertion.
pub insert_sorted : ℕ → List ℕ → List ℕ
insert_sorted x [] = x ∷ []
insert_sorted x (y ∷ ys) = if leb x y then x ∷ y ∷ ys else y ∷ insert_sorted x ys

pub sort : List ℕ → List ℕ
unfolding insert_sorted
sort [] = []
sort (x ∷ xs) = insert_sorted x (sort xs)

-- The dictionary with one key given anew.
abbrev pub at {ℓ} : {A : Type ℓ} → ℕ → A → (ℕ → A) → ℕ → A
at k a f j = if k == j then a else f j

-- `set.add`.
pub add : ℕ → List ℕ → List ℕ
add x xs = if contains x xs then xs else x ∷ xs

pub record Degrees : Type 0 where
  pub outgoing : ℕ → List ℕ
  pub indegree : ℕ → ℕ

abbrev pub empty : Degrees
empty = record { outgoing = λ _. []; indegree = λ _. 0 }

abbrev pub connect : Edge → Degrees → Degrees
connect (prerequisite, dependent) t = record {
  outgoing = at prerequisite (add dependent (t.outgoing prerequisite)) t.outgoing;
  indegree = at dependent (t.indegree dependent + 1) t.indegree;
}

-- The loop over the edges.
pub tabulate : List ℕ → List Edge → Degrees → Result Degrees
unfolding add
tabulate ids [] t = ok t
tabulate ids (e ∷ es) t =
    let rest = tabulate ids es (connect e t) in
    if contains e.0 ids && contains e.1 ids then rest else err key_error

-- The inner loop: the in-degrees and the frontier once the dependents of a node are relaxed.
pub relax : List ℕ → (ℕ → ℕ) → List ℕ → (ℕ → ℕ) × List ℕ
unfolding sort
relax [] indegree frontier = (indegree, frontier)
relax (d ∷ ds) indegree frontier =
    relax ds (at d (indegree d - 1) indegree)
      (if indegree d - 1 == 0 then sort (frontier ++ d ∷ []) else frontier)

-- The `while` loop, which counts the nodes visited; `none` if the fuel runs out.
pub visit : ℕ → (ℕ → List ℕ) → (ℕ → ℕ) → List ℕ → ℕ → Option ℕ
unfolding relax
visit fuel outgoing indegree [] visited = some visited
visit zero outgoing indegree (current ∷ rest) visited = none
visit (suc fuel) outgoing indegree (current ∷ rest) visited =
    let (indegree', frontier') = relax (sort (outgoing current)) indegree rest in
    visit fuel outgoing indegree' frontier' (visited + 1)

pub judge : ℕ → Option ℕ → Result (Unit {0})
judge size none = err fuel_spent
judge size (some visited) = if visited == size then ok tt else err (invalid cyclic_items)

pub visit_all : List ℕ → Degrees → Option ℕ
unfolding visit
visit_all ids t =
    visit (length ids) t.outgoing t.indegree (sort (filter (λ i. t.indegree i == 0) ids)) 0

-- `_assert_acyclic`.
unfoldable pub assert_acyclic : List ℕ → List Edge → Result (Unit {0})
unfolding tabulate visit_all judge
assert_acyclic ids edges = elim (tabulate ids edges empty) [
  | ok t ↦ judge (length ids) (visit_all ids t)
  | err e ↦ err e
]
