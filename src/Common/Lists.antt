-- ===== src/Common/Lists.antt =====
-- Lists under native numbers, and tables: lists of rows that are searched, counted and updated.
use Prim.Native.Nat.{ℕ, suc, ◌+◌, ◌≤◌}
use mathlib.Core.Logic.{◌↔◌}
use mathlib.Core.Path.{◌≡◌, refl, ap}
use mathlib.Core.Bool.{Bool, true, false, ◌&&◌, ◌||◌}
use mathlib.Core.List.{List, [], ◌∷◌, ◌++◌}
use mathlib.Core.Option.{Option, none, some}
use native.Mathlib.Omega.{arith}
use elowyn_assist.Common.Tests.{◌==◌, if◌then◌else◌, bit}

module _ {ℓ} {A : Type ℓ} where
  abbrev pub length : List A → ℕ
  length [] = 0
  length (x ∷ xs) = suc (length xs)

  -- `not xs`.
  abbrev pub is_empty : List A → Bool
  is_empty [] = true
  is_empty (x ∷ xs) = false

  -- The rows that pass a test, in order: `select(...).where(test)`.
  abbrev pub filter : (A → Bool) → List A → List A
  filter p [] = []
  filter p (x ∷ xs) = if p x then x ∷ filter p xs else filter p xs

  -- The first row that passes a test.
  abbrev pub find : (A → Bool) → List A → Option A
  find p [] = none
  find p (x ∷ xs) = if p x then some x else find p xs

  -- `any(test(x) for x in xs)`.
  abbrev pub any : (A → Bool) → List A → Bool
  any p [] = false
  any p (x ∷ xs) = p x || any p xs

  abbrev pub all : (A → Bool) → List A → Bool
  all p [] = true
  all p (x ∷ xs) = p x && all p xs

  -- `sum(test(x) for x in xs)`.
  abbrev pub count : (A → Bool) → List A → ℕ
  count p [] = 0
  count p (x ∷ xs) = bit (p x) + count p xs

  -- Change every row that passes a test.
  abbrev pub update : (A → Bool) → (A → A) → List A → List A
  update p f [] = []
  update p f (x ∷ xs) = (if p x then f x else x) ∷ update p f xs

  abbrev pub All {κ} : (A → Type κ) → List A → Type κ
  All P [] = Unit
  All P (x ∷ xs) = P x × All P xs

  pub append-nil : (xs : List A) → xs ++ [] ≡ xs
  append-nil [] = refl
  append-nil (x ∷ xs) = ap (λ ys. x ∷ ys) (append-nil xs)

  pub append_assoc : (xs ys zs : List A) → (xs ++ ys) ++ zs ≡ xs ++ (ys ++ zs)
  append_assoc [] ys zs = refl
  append_assoc (x ∷ xs) ys zs = ap (λ ws. x ∷ ws) (append_assoc xs ys zs)

  pub length-append : (xs ys : List A) → length (xs ++ ys) ≡ length xs + length ys
  length-append [] ys = omega arith
  length-append (x ∷ xs) ys = omega (arith, length-append xs ys)

  pub count-append : (p : A → Bool) (xs ys : List A) → count p (xs ++ ys) ≡ count p xs + count p ys
  count-append p [] ys = omega arith
  count-append p (x ∷ xs) ys = omega (arith, count-append p xs ys)

  pub length-filter : (p : A → Bool) (xs : List A) → length (filter p xs) ≡ count p xs
  length-filter p [] = refl
  length-filter p (x ∷ xs) = ground (arith, length-filter p xs)

  pub All-append {κ} : (P : A → Type κ) (xs ys : List A) → All P xs → All P ys → All P (xs ++ ys)
  All-append P [] ys h k = k
  All-append P (x ∷ xs) ys h k = (h.0, All-append P xs ys h.1 k)

-- `x in xs`, by a test of equality.
module _ {ℓ} {A : Type ℓ} (same : A → A → Bool) where
  abbrev pub member : A → List A → Bool
  member a [] = false
  member a (x ∷ xs) = same x a || member a xs

  -- The values of `xs` that are neither in `seen` nor earlier in `xs`.
  abbrev pub distinct_from : List A → List A → List A
  distinct_from seen [] = []
  distinct_from seen (x ∷ xs) =
      let kept = x ∷ distinct_from (x ∷ seen) xs in
      let skipped = distinct_from seen xs in if member x seen then skipped else kept

  -- `list(dict.fromkeys(xs))` and `set(xs)`: each value once, the first occurrences in order.
  abbrev pub distinct : List A → List A
  distinct xs = distinct_from [] xs

  -- `len(xs) == len(set(xs))`.
  abbrev pub all_distinct : List A → Bool
  all_distinct xs = length xs == length (distinct xs)

  -- No value of `xs` is in `seen` or earlier in `xs`.
  abbrev pub Fresh : List A → List A → Type 0
  Fresh seen [] = Unit
  Fresh seen (x ∷ xs) = (member x seen ≡ false) × Fresh (x ∷ seen) xs

  pub length-distinct_from : (seen xs : List A) → length (distinct_from seen xs) ≤ length xs
  length-distinct_from seen [] = omega arith
  length-distinct_from seen (x ∷ xs) =
      ground (arith, length-distinct_from seen xs, length-distinct_from (x ∷ seen) xs)

  Fresh-of_length : (seen xs : List A) → length xs ≤ length (distinct_from seen xs) → Fresh seen xs
  Fresh-of_length seen [] h = tt
  Fresh-of_length seen (x ∷ xs) h =
      ground (arith, length-distinct_from seen xs, Fresh-of_length (x ∷ seen) xs)

  length_of_Fresh : (seen xs : List A) → Fresh seen xs → length (distinct_from seen xs) ≡ length xs
  length_of_Fresh seen [] h = refl
  length_of_Fresh seen (x ∷ xs) h = ground (arith, length_of_Fresh (x ∷ seen) xs)

  -- The comparison of lengths tests that no value stands twice.
  pub all_distinct_iff : (xs : List A) → (all_distinct xs ≡ true) ↔ Fresh [] xs
  all_distinct_iff xs =
      (λ h. Fresh-of_length [] xs (ground arith), λ h. ground (arith, length_of_Fresh [] xs h))

-- `x in xs` for identifiers.
abbrev pub contains : ℕ → List ℕ → Bool
contains = member ◌==◌
