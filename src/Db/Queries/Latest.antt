-- ===== src/Db/Queries/Latest.antt =====
-- What the query of the latest event finds.
use mathlib.Core.List.{Memᴰ}
use elowyn_assist.Common.{
  ◌≡◌, refl, sym, subst, Bool, true, false, none, some, List, [], ◌∷◌, Bool-cases, Option-cases,
  inl, inr, arith,
}
use elowyn_assist.Db.Rows.{Event}
use elowyn_assist.Db.Queries.{behind, latest}

behind_trans : (a b c : Event) → behind a b ≡ false → behind b c ≡ false → behind a c ≡ false
behind_trans a b c h k = ground arith

behind_flip : (a b : Event) → behind a b ≡ true → behind b a ≡ false
behind_flip a b h = ground arith

-- The event passes the test, stands in the table, and no other one that passes stands before it.
pub record IsLatest (p : Event → Bool) (es : List Event) (e : Event) : Type 0 where
  pub passes : p e ≡ true
  pub known : Memᴰ e es
  pub first : (x : Event) → Memᴰ x es → p x ≡ true → behind e x ≡ false

none_pass :
    (p : Event → Bool) (es : List Event)
    → latest p es ≡ none
    → (x : Event) → Memᴰ x es
    → p x ≡ false
unfolding latest
none_pass p [] h x there = elim there [ ]
none_pass p (e ∷ es) h x (Memᴰ.head same) = subst (λ y. p y ≡ false) (sym same) (ground arith)
none_pass p (e ∷ es) h x (Memᴰ.tail there) = none_pass p es (ground arith) x there

behind_refl : (a : Event) → behind a a ≡ false
behind_refl a = ground arith

-- One more event, against the latest of the others.
module _ (p : Event → Bool) (y : Event) (es : List Event) where
  IsLatest-skip : (e : Event) → p y ≡ false → IsLatest p es e → IsLatest p (y ∷ es) e
  IsLatest-skip e h l = record { passes = l.passes; known = Memᴰ.tail l.known; first = before }
    where
      before : (x : Event) → Memᴰ x (y ∷ es) → p x ≡ true → behind e x ≡ false
      before x (Memᴰ.head same) k = absurd (let q = subst (λ z. p z ≡ false) (sym same) h in cc)
      before x (Memᴰ.tail there) k = l.first x there k

  IsLatest-only : p y ≡ true → latest p es ≡ none → IsLatest p (y ∷ es) y
  IsLatest-only h k = record { passes = h; known = Memᴰ.head refl; first = before }
    where
      before : (x : Event) → Memᴰ x (y ∷ es) → p x ≡ true → behind y x ≡ false
      before x (Memᴰ.head same) q = subst (λ z. behind y z ≡ false) (sym same) (behind_refl y)
      before x (Memᴰ.tail there) q = absurd (let n = none_pass p es k x there in cc)

  IsLatest-better :
      (b : Event) → p y ≡ true → behind y b ≡ false → IsLatest p es b → IsLatest p (y ∷ es) y
  IsLatest-better b h k l = record { passes = h; known = Memᴰ.head refl; first = before }
    where
      before : (x : Event) → Memᴰ x (y ∷ es) → p x ≡ true → behind y x ≡ false
      before x (Memᴰ.head same) q = subst (λ z. behind y z ≡ false) (sym same) (behind_refl y)
      before x (Memᴰ.tail there) q = behind_trans y b x k (l.first x there q)

  IsLatest-worse : (b : Event) → behind y b ≡ true → IsLatest p es b → IsLatest p (y ∷ es) b
  IsLatest-worse b k l = record { passes = l.passes; known = Memᴰ.tail l.known; first = before }
    where
      before : (x : Event) → Memᴰ x (y ∷ es) → p x ≡ true → behind b x ≡ false
      before x (Memᴰ.head same) q = subst (λ z. behind b z ≡ false) (sym same) (behind_flip y b k)
      before x (Memᴰ.tail there) q = l.first x there q

pub latest-IsLatest :
    (p : Event → Bool) (es : List Event) (e : Event) → latest p es ≡ some e → IsLatest p es e
unfolding latest
latest-IsLatest p [] e h = absurd (cc)
latest-IsLatest p (y ∷ es) e h = elim (Bool-cases (p y)) [
  | inr skip ↦ IsLatest-skip p y es e skip (latest-IsLatest p es e (ground arith))
  | inl take ↦ elim (Option-cases (latest p es)) [
    | inl nothing ↦ subst (IsLatest p (y ∷ es)) (ground arith) (IsLatest-only p y es take nothing)
    | inr (b, found) ↦ elim (Bool-cases (behind y b)) [
      | inl worse ↦
          subst (IsLatest p (y ∷ es)) (ground arith)
            (IsLatest-worse p y es b worse (latest-IsLatest p es b found))
      | inr better ↦
          subst (IsLatest p (y ∷ es)) (ground arith)
            (IsLatest-better p y es b take better (latest-IsLatest p es b found))
    ]
  ]
]
