-- ===== src/Planning/Lifecycle.antt =====
-- services/planning.py: the life of plan versions. What the database's constraints say of the
-- version table (db/models.py, `PlanVersion.__table_args__`), and what single writes keep of it.
pub mod History
pub mod Log
pub mod Returned
pub mod Current
pub mod States
use elowyn_assist.Common.{
  ℕ, suc, ◌+◌, ◌≤◌, ◌<◌, ◌≡◌, refl, Bool, true, false, not, ◌&&◌, ◌||◌, Option, none, some, List,
  [], ◌∷◌, ◌++◌, arith, ltb, leb, ◌==◌, if◌then◌else◌, is_none, is_some, bit, count, find, filter,
  update, inl, inr, sym, Bool-cases, eq_of_beq, count-pos_of_find, count-update, count-append,
  find-holds, filter-one, filter-one-find, beq_refl,
}
use elowyn_assist.Domain.Enums.{PlanVersionStatus}
use elowyn_assist.Db.Plans.{PlanVersion}
use elowyn_assist.Planning.Rows.{of_status}

abbrev pub by_id : ℕ → PlanVersion → Bool
by_id i v = v.id == i

abbrev pub numbered : ℕ → ℕ → PlanVersion → Bool
numbered plan_id n v = v.plan_id == plan_id && v.version_number == n

-- The check constraints of a row: a positive number, an approval recorded whole or not at all, one
-- on an approved version, and none on a candidate or a rejected version.
abbrev pub approval_fits : PlanVersionStatus → Option ℕ → Option ℕ → Bool
approval_fits PlanVersionStatus.candidate source at = is_none source && is_none at
approval_fits PlanVersionStatus.rejected source at = is_none source && is_none at
approval_fits PlanVersionStatus.approved source at = is_some source && is_some at
approval_fits PlanVersionStatus.superseded none none = true
approval_fits PlanVersionStatus.superseded (some source) (some at) = true
approval_fits PlanVersionStatus.superseded source at = false

abbrev pub breaks : PlanVersion → Bool
breaks v =
    not (ltb 0 v.version_number) || not (approval_fits v.status v.approval_source_id v.approved_at)

-- The version table is as the schema wants it, and identifiers from `supply` on are unused.
pub record IsLifecycle (supply : ℕ) (versions : List PlanVersion) : Type 0 where
  pub unique : (i : ℕ) → count (by_id i) versions ≤ 1
  pub unused : (i : ℕ) → supply ≤ i → count (by_id i) versions ≡ 0
  pub one_candidate : (p : ℕ) → count (of_status p PlanVersionStatus.candidate) versions ≤ 1
  pub one_approved : (p : ℕ) → count (of_status p PlanVersionStatus.approved) versions ≤ 1
  pub one_number : (p n : ℕ) → count (numbered p n) versions ≤ 1
  pub fits : count breaks versions ≡ 0

-- Replacing a row by one with the same identity and number.
module _ (supply : ℕ) (vs : List PlanVersion) (v w : PlanVersion) where
  abbrev pub replaced : List PlanVersion
  replaced = update (by_id w.id) (λ _. w) vs

  pub replaced-IsLifecycle :
      IsLifecycle supply vs
      → find (by_id w.id) vs ≡ some v
      → w.plan_id ≡ v.plan_id
      → w.version_number ≡ v.version_number
      → ((p : ℕ) → count (of_status p PlanVersionStatus.candidate) replaced ≤ 1)
      → ((p : ℕ) → count (of_status p PlanVersionStatus.approved) replaced ≤ 1)
      → breaks w ≡ false
      → IsLifecycle supply replaced
  replaced-IsLifecycle l found same_plan same_number candidates approvals fit = record {
    unique = λ i. ground (arith, swap (by_id i), key, l.unique i);
    unused = λ i h. ground (arith, swap (by_id i), key, l.unused i);
    one_candidate = candidates;
    one_approved = approvals;
    one_number = λ p n. ground (arith, swap (numbered p n), l.one_number p n);
    fits = ground (arith, swap breaks, l.fits);
  }
    where
      key : (v.id == w.id) ≡ true
      key = find-holds (by_id w.id) v vs found

      swap : (q : PlanVersion → Bool) → count q replaced + bit (q v) ≡ count q vs + bit (q w)
      swap q = count-update q (by_id w.id) v w vs found (l.unique w.id)

  -- A row that leaves the current ones: superseded, whatever it was.
  pub retired-IsLifecycle :
      IsLifecycle supply vs
      → find (by_id w.id) vs ≡ some v
      → w ≡ record v { status = PlanVersionStatus.superseded }
      → IsLifecycle supply replaced
  retired-IsLifecycle l found e =
      replaced-IsLifecycle l found (ground arith) (ground arith)
        (λ p. ground (arith, swap (of_status p PlanVersionStatus.candidate), l.one_candidate p))
        (λ p. ground (arith, swap (of_status p PlanVersionStatus.approved), l.one_approved p))
        (ground (arith, count-pos_of_find breaks (by_id w.id) v vs found, l.fits))
    where
      swap : (q : PlanVersion → Bool) → count q replaced + bit (q v) ≡ count q vs + bit (q w)
      swap q = count-update q (by_id w.id) v w vs found (l.unique w.id)

  -- A candidate that is rejected.
  pub rejected-IsLifecycle :
      IsLifecycle supply vs
      → find (by_id w.id) vs ≡ some v
      → v.status ≡ PlanVersionStatus.candidate
      → w ≡ record v { status = PlanVersionStatus.rejected }
      → IsLifecycle supply replaced
  rejected-IsLifecycle l found was e =
      replaced-IsLifecycle l found (ground arith) (ground arith)
        (λ p. ground (arith, swap (of_status p PlanVersionStatus.candidate), l.one_candidate p))
        (λ p. ground (arith, swap (of_status p PlanVersionStatus.approved), l.one_approved p))
        (ground (arith, count-pos_of_find breaks (by_id w.id) v vs found, l.fits))
    where
      swap : (q : PlanVersion → Bool) → count q replaced + bit (q v) ≡ count q vs + bit (q w)
      swap q = count-update q (by_id w.id) v w vs found (l.unique w.id)

  -- A row that becomes the approved version of a plan that has none.
  pub approved-IsLifecycle :
      IsLifecycle supply vs
      → find (by_id w.id) vs ≡ some v
      → w.plan_id ≡ v.plan_id
      → w.version_number ≡ v.version_number
      → w.status ≡ PlanVersionStatus.approved
      → is_some w.approval_source_id && is_some w.approved_at ≡ true
      → count (of_status v.plan_id PlanVersionStatus.approved) vs ≡ 0
      → IsLifecycle supply replaced
  approved-IsLifecycle l found e f is whole vacant =
      replaced-IsLifecycle l found e f
        (λ p. ground (arith, swap (of_status p PlanVersionStatus.candidate), l.one_candidate p))
        (λ p. approvals p)
        (ground (arith, count-pos_of_find breaks (by_id w.id) v vs found, l.fits))
    where
      swap : (q : PlanVersion → Bool) → count q replaced + bit (q v) ≡ count q vs + bit (q w)
      swap q = count-update q (by_id w.id) v w vs found (l.unique w.id)

      approvals : (p : ℕ) → count (of_status p PlanVersionStatus.approved) replaced ≤ 1
      approvals p = elim (Bool-cases (v.plan_id == p)) [
        | inl here ↦
            rw (sym (eq_of_beq v.plan_id p here))
              (ground (arith, swap (of_status v.plan_id PlanVersionStatus.approved)))
        | inr elsewhere ↦
            ground (arith, swap (of_status p PlanVersionStatus.approved), l.one_approved p)
      ]

pub IsLifecycle-mono :
    {m n : ℕ} (vs : List PlanVersion) → m ≤ n → IsLifecycle m vs → IsLifecycle n vs
IsLifecycle-mono vs h l = record {
  unique = l.unique;
  unused = λ i k. l.unused i (omega arith);
  one_candidate = l.one_candidate;
  one_approved = l.one_approved;
  one_number = l.one_number;
  fits = l.fits;
}

-- A new candidate, with an unused identifier and number, in a plan that has no candidate.
pub added-IsLifecycle :
    (supply : ℕ) (vs : List PlanVersion) (w : PlanVersion)
    → IsLifecycle supply vs
    → w.id ≡ supply
    → w.status ≡ PlanVersionStatus.candidate
    → count (of_status w.plan_id PlanVersionStatus.candidate) vs ≡ 0
    → count (numbered w.plan_id w.version_number) vs ≡ 0
    → breaks w ≡ false
    → IsLifecycle (suc supply) (vs ++ w ∷ [])
added-IsLifecycle supply vs w l key is vacant number fit = record {
  unique = λ i. ground (arith, count-append (by_id i) vs (w ∷ []), l.unique i, l.unused i);
  unused = λ i h. ground (arith, count-append (by_id i) vs (w ∷ []), l.unused i);
  one_candidate = λ p. elim (Bool-cases (w.plan_id == p)) [
    | inl here ↦
        rw (sym (eq_of_beq w.plan_id p here))
          (ground (arith, tally (of_status w.plan_id PlanVersionStatus.candidate)))
    | inr elsewhere ↦
        ground (arith, tally (of_status p PlanVersionStatus.candidate), l.one_candidate p)
  ];
  one_approved =
      λ p. ground (arith, tally (of_status p PlanVersionStatus.approved), l.one_approved p);
  one_number = λ p n. elim (Bool-cases (numbered p n w)) [
    | inl here ↦ same p n here
    | inr elsewhere ↦ ground (arith, tally (numbered p n), l.one_number p n)
  ];
  fits = ground (arith, tally breaks, l.fits);
}
  where
    tally : (q : PlanVersion → Bool) → count q (vs ++ w ∷ []) ≡ count q vs + count q (w ∷ [])
    tally q = count-append q vs (w ∷ [])

    same : (p n : ℕ) → numbered p n w ≡ true → count (numbered p n) (vs ++ w ∷ []) ≤ 1
    same p n h =
        let e : w.plan_id ≡ p = ground arith in
        let f : w.version_number ≡ n = ground arith in
        rw (sym e, sym f) (ground (arith, tally (numbered w.plan_id w.version_number)))
