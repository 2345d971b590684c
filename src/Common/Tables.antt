-- ===== src/Common/Tables.antt =====
-- Tables: what a query has found, and how counts change when the row of a key is replaced.
use Prim.Native.Nat.{◌+◌, ◌≤◌}
use mathlib.Core.Path.{◌≡◌, refl}
use mathlib.Core.Bool.{Bool, true, false, not, ◌&&◌}
use mathlib.Core.List.{List, [], ◌∷◌}
use mathlib.Core.Option.{some}
use native.Mathlib.Omega.{arith}
use elowyn_assist.Common.Tests.{bit}
use elowyn_assist.Common.Lists.{filter, find, count, update, length-filter}

-- A row of a table that is replaced by its key: every count changes by that row alone.
module _ {ℓ} {A : Type ℓ} where
  pub update_none : (q : A → Bool) (f : A → A) (xs : List A) → count q xs ≡ 0 → update q f xs ≡ xs
  update_none q f [] h = refl
  update_none q f (x ∷ xs) h = ground (arith, update_none q f xs)

  pub count-update :
      (p q : A → Bool) (v w : A) (xs : List A)
      → find q xs ≡ some v
      → count q xs ≤ 1
      → count p (update q (λ _. w) xs) + bit (p v) ≡ count p xs + bit (p w)
  count-update p q v w [] h k = absurd (cc)
  count-update p q v w (x ∷ xs) h k =
      ground (arith, count-update p q v w xs, update_none q (λ (_ : A). w) xs)

  pub find-holds : (q : A → Bool) (v : A) (xs : List A) → find q xs ≡ some v → q v ≡ true
  find-holds q v [] h = absurd (cc)
  find-holds q v (x ∷ xs) h = ground (arith, find-holds q v xs)

  pub count-pos_of_find :
      (p q : A → Bool) (v : A) (xs : List A) → find q xs ≡ some v → bit (p v) ≤ count p xs
  count-pos_of_find p q v [] h = absurd (cc)
  count-pos_of_find p q v (x ∷ xs) h = ground (arith, count-pos_of_find p q v xs)

  -- Where a test counts one row, two rows that are found and pass it are the same.
  pub only_one :
      (p q r : A → Bool) (v w : A) (xs : List A)
      → find q xs ≡ some v
      → p v ≡ true
      → find r xs ≡ some w
      → p w ≡ true
      → count p xs ≤ 1
      → v ≡ w
  only_one p q r v w [] h a k b l = absurd (cc)
  only_one p q r v w (x ∷ xs) h a k b l =
      ground (arith, only_one p q r v w xs, count-pos_of_find p q v xs, count-pos_of_find p r w xs)

  -- What a query that finds one row says of it.
  pub filter-one :
      (p : A → Bool) (v : A) (xs : List A) → filter p xs ≡ v ∷ [] → (p v ≡ true) × (count p xs ≡ 1)
  filter-one p v [] h = absurd (cc)
  filter-one p v (x ∷ xs) h = ground (arith, filter-one p v xs, length-filter p xs)

  pub filter-one-count :
      (p q : A → Bool) (v : A) (xs : List A) → filter p xs ≡ v ∷ [] → bit (q v) ≤ count q xs
  filter-one-count p q v [] h = absurd (cc)
  filter-one-count p q v (x ∷ xs) h = ground (arith, filter-one-count p q v xs)

  -- By a unique key that row is found.
  pub filter-one-find :
      (p q : A → Bool) (v : A) (xs : List A)
      → filter p xs ≡ v ∷ []
      → q v ≡ true
      → count q xs ≤ 1
      → find q xs ≡ some v
  filter-one-find p q v [] h e k = absurd (cc)
  filter-one-find p q v (x ∷ xs) h e k =
      ground (arith, filter-one-find p q v xs, filter-one-count p q v xs)

  pub count-split :
      (p q : A → Bool) (xs : List A)
      → count p xs ≡ count (λ x. p x && not (q x)) xs + count (λ x. p x && q x) xs
  count-split p q [] = refl
  count-split p q (x ∷ xs) = ground (arith, count-split p q xs)

  count-none : (p q : A → Bool) (xs : List A) → count q xs ≡ 0 → count (λ x. p x && q x) xs ≡ 0
  count-none p q [] h = refl
  count-none p q (x ∷ xs) h = ground (arith, count-none p q xs)

  -- Among the rows of a unique key a test counts the row of the key.
  pub count-at_key :
      (p q : A → Bool) (v : A) (xs : List A)
      → find q xs ≡ some v
      → count q xs ≤ 1
      → count (λ x. p x && q x) xs ≡ bit (p v)
  count-at_key p q v [] h k = absurd (cc)
  count-at_key p q v (x ∷ xs) h k = ground (arith, count-at_key p q v xs, count-none p q xs)

  -- The row of another key is found as before.
  pub find-update_other :
      (p q : A → Bool) (w : A) (xs : List A)
      → p w ≡ false
      → ((x : A) → q x ≡ true → p x ≡ false)
      → find p (update q (λ _. w) xs) ≡ find p xs
  find-update_other p q w [] h k = refl
  find-update_other p q w (x ∷ xs) h k = ground (arith, k x, find-update_other p q w xs h k)

  pub find-update_self :
      (q : A → Bool) (v w : A) (xs : List A)
      → find q xs ≡ some v
      → q w ≡ true
      → find q (update q (λ _. w) xs) ≡ some w
  find-update_self q v w [] h k = absurd (cc)
  find-update_self q v w (x ∷ xs) h k = ground (arith, find-update_self q v w xs)
