-- ===== src/Domain/PlanningCommands/Exact.antt =====
-- domain/planning_commands.py: what the validator of a candidate's references accepts.
use elowyn_assist.Common.{
  ℕ, ◌≡◌, refl, ◌↔◌, Bool, true, false, not, List, [], ◌∷◌, map, ◌==◌, arith, contains, All, Fresh,
  all_distinct, all_distinct_iff,
}
use elowyn_assist.Domain.Errors.{Result, ok, err, Error, raise_if, ◌>>◌}
use elowyn_assist.Domain.PlanningCommands.{
  PlanCandidateCreate, PlanVersionItemCreate, Edge, same_edge, edge_of, same_basis, check_edges,
  validate_graph_references,
}

abbrev pub item_ids : PlanCandidateCreate → List ℕ
item_ids command = map (λ (item : PlanVersionItemCreate). item.id) command.items

abbrev pub ordinals : PlanCandidateCreate → List ℕ
ordinals command = map (λ (item : PlanVersionItemCreate). item.ordinal) command.items

-- Both items of a dependency are among the given ones.
abbrev pub IsKnown : List ℕ → Edge → Type 0
IsKnown known e = (contains e.0 known ≡ true) × (contains e.1 known ≡ true)

-- The references of a candidate are sound: identifiers, ordinals, dependencies, basis entries and
-- evidence occur once each, and dependencies are between items of the candidate.
pub record IsReferable (command : PlanCandidateCreate) : Type 0 where
  pub items : Fresh ◌==◌ [] (item_ids command)
  pub places : Fresh ◌==◌ [] (ordinals command)
  pub edges : Fresh same_edge [] (map edge_of command.dependencies)
  pub known : All (IsKnown (item_ids command)) (map edge_of command.dependencies)
  pub basis : Fresh same_basis [] command.basis
  pub evidence : Fresh ◌==◌ [] command.evidence_source_ids

seq-ok : (m k : Result (Unit {0})) → (m >> k) ≡ ok tt → (m ≡ ok tt) × (k ≡ ok tt)
seq-ok (ok tt) k h = (refl, h)
seq-ok (err e) k h = absurd (cc)

require-ok : (b : Bool) (e : Error) → raise_if (not b) e ≡ ok tt → b ≡ true
require-ok true e h = refl
require-ok false e h = absurd (cc)

check_edges_sound :
    (known : List ℕ) (seen es : List Edge)
    → check_edges known seen es ≡ ok tt
    → Fresh same_edge seen es × All (IsKnown known) es
unfolding check_edges
check_edges_sound known seen [] h = (tt, tt)
check_edges_sound known seen (e ∷ es) h = ground (arith, check_edges_sound known (e ∷ seen) es)

check_edges_complete :
    (known : List ℕ) (seen es : List Edge)
    → Fresh same_edge seen es
    → All (IsKnown known) es
    → check_edges known seen es ≡ ok tt
unfolding check_edges
check_edges_complete known seen [] h k = refl
check_edges_complete known seen (e ∷ es) h k =
    ground (arith, check_edges_complete known (e ∷ seen) es)

sound :
    (command : PlanCandidateCreate)
    → validate_graph_references command ≡ ok tt
    → IsReferable command
unfolding validate_graph_references
sound command h =
    let (a, h1) = seq-ok (raise_if (not (all_distinct ◌==◌ (item_ids command))) _) _ h in
    let (b, h2) = seq-ok (raise_if (not (all_distinct ◌==◌ (ordinals command))) _) _ h1 in
    let (c, h3) =
      seq-ok (check_edges (item_ids command) [] (map edge_of command.dependencies)) _ h2 in
    let (d, f) = seq-ok (raise_if (not (all_distinct same_basis command.basis)) _) _ h3 in
    let (edges, known) =
      check_edges_sound (item_ids command) [] (map edge_of command.dependencies) c in
    record {
      items = (all_distinct_iff ◌==◌ (item_ids command)).0 (require-ok _ _ a);
      places = (all_distinct_iff ◌==◌ (ordinals command)).0 (require-ok _ _ b);
      edges = edges;
      known = known;
      basis = (all_distinct_iff same_basis command.basis).0 (require-ok _ _ d);
      evidence = (all_distinct_iff ◌==◌ command.evidence_source_ids).0 (require-ok _ _ f);
    }

complete :
    (command : PlanCandidateCreate)
    → IsReferable command
    → validate_graph_references command ≡ ok tt
unfolding validate_graph_references
complete command r =
    rw
      (
        (all_distinct_iff ◌==◌ (item_ids command)).1 r.items,
        (all_distinct_iff ◌==◌ (ordinals command)).1 r.places,
        check_edges_complete (item_ids command) [] (map edge_of command.dependencies) r.edges
            r.known,
        (all_distinct_iff same_basis command.basis).1 r.basis,
        (all_distinct_iff ◌==◌ command.evidence_source_ids).1 r.evidence,
      )
      refl

-- The validator of a candidate's references accepts exactly if the items' identifiers, their
-- ordinals, the dependencies, the basis entries and the evidence occur once each, and every
-- dependency is between items of the candidate.
pub validate_graph_references_iff :
    (command : PlanCandidateCreate)
    → (validate_graph_references command ≡ ok tt) ↔ IsReferable command
validate_graph_references_iff command = (sound command, complete command)
