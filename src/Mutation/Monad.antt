-- ===== src/Mutation/Monad.antt =====
-- A coroutine of the service: it reads and writes the state and may raise. What was written before
-- a raise stays written, until a savepoint takes it back.
use elowyn_assist.Common.{ℕ, suc, ◌≡◌, refl, ap, Bool, List, Option, none, some, [], ◌∷◌}
use elowyn_assist.Domain.Errors.{Result, ok, err, Error, multiple_results, raise_if}
use elowyn_assist.Db.Store.{Db, State}

abbrev pub Action {ℓ} : Type ℓ → Type ℓ
Action A = State → Result A × State

module _ {ℓ} {A : Type ℓ} where
  abbrev pub pure : A → Action A
  pure a s = (ok a, s)

  abbrev pub raise : Error → Action A
  raise e s = (err e, s)

  -- A query: it reads the database and changes nothing.
  abbrev pub query : (Db → Result A) → Action A
  query q s = (q s.db, s)

-- The `now()` of the database, which columns take for a default.
abbrev pub transaction_now : Action ℕ
transaction_now s = (ok s.transaction_time, s)

-- `if test: raise error`, where nothing has been written.
abbrev pub refuse_if : Bool → Error → Action (Unit {0})
refuse_if test e s = (raise_if test e, s)

infixl 5 ◌>>=◌ ◌>>◌
abbrev pub ◌>>=◌ {ℓ κ} : {A : Type ℓ} {B : Type κ} → Action A → (A → Action B) → Action B
◌>>=◌ m f s = let (r, t) = m s in elim r [ ok a ↦ f a t | err e ↦ (err e, t) ]

abbrev pub ◌>>◌ {ℓ κ} : {A : Type ℓ} {B : Type κ} → Action A → Action B → Action B
m >> k = m >>= λ _. k

-- `session.add` and attribute writes, flushed.
abbrev pub write : (Db → Db) → Action (Unit {0})
write f s = (ok tt, record s { db = f s.db })

-- `uuid4()`.
abbrev pub new_id : Action ℕ
new_id s = (ok s.next_id, record s { next_id = suc s.next_id })

-- `datetime.now(UTC)`.
abbrev pub now : Action ℕ
now s = (ok (s.clock s.readings), record s { readings = suc s.readings })

-- `scalar_one_or_none()`.
unfoldable pub scalar_one_or_none {ℓ} : {A : Type ℓ} → List A → Result (Option A)
scalar_one_or_none [] = ok none
scalar_one_or_none (x ∷ []) = ok (some x)
scalar_one_or_none (x ∷ y ∷ rest) = err multiple_results

-- What holds of both outcomes of the first action holds of the whole.
pub bind_rule {ℓ κ ν} :
    {A : Type ℓ} {B : Type κ} (P : Result B × State → Type ν) (m : Action A) (f : A → Action B)
    (s : State)
    → ((a : A) → (m s).0 ≡ ok a → P (f a (m s).1))
    → ((e : Error) → (m s).0 ≡ err e → P (err e, (m s).1))
    → P ((m >>= f) s)
bind_rule {A} {B} P m f s good bad = go (m s).0 (m s).1 good bad
  where
    go :
        (r : Result A) (t : State)
        → ((a : A) → r ≡ ok a → P (f a t))
        → ((e : Error) → r ≡ err e → P (err e, t))
        → P (elim r [ ok a ↦ f a t | err e ↦ (err e, t) ])
    go (ok a) t good bad = good a refl
    go (err e) t good bad = bad e refl

-- The savepoint: a raise takes the database back to it. The service object and the readings of the
-- clock are no part of the database.
unfoldable pub settle {ℓ} : {A : Type ℓ} → State → Result A × State → Result A × State
settle s (ok a, t) = (ok a, t)
settle s (err e, t) = (err e, record t { db = s.db })

-- `atomic_domain_action`.
unfoldable pub atomic_domain_action {ℓ} : {A : Type ℓ} → Action A → Action A
unfolding settle
atomic_domain_action m s = settle s (m s)

-- What holds of the state that the body leaves, and with the old database too, holds after the
-- savepoint.
pub settle_rule {ℓ κ} :
    {A : Type ℓ} (P : State → Type κ) (s : State) (out : Result A × State)
    → P out.1
    → P (record (out.1) { db = s.db })
    → P (settle s out).1
unfolding settle
settle_rule P s (ok a, t) h k = h
settle_rule P s (err e, t) h k = k

-- What the query has found, if it raises nothing.
pub or_none-some {ℓ} :
    {A : Type ℓ} (xs : List A) (x : A) → scalar_one_or_none xs ≡ ok (some x) → xs ≡ x ∷ []
unfolding scalar_one_or_none
or_none-some [] x h = absurd (cc)
or_none-some (y ∷ []) x h = cc
or_none-some (y ∷ z ∷ rest) x h = absurd (cc)

pub or_none-none {ℓ} : {A : Type ℓ} (xs : List A) → scalar_one_or_none xs ≡ ok none → xs ≡ []
unfolding scalar_one_or_none
or_none-none [] h = refl
or_none-none (y ∷ []) h = absurd (cc)
or_none-none (y ∷ z ∷ rest) h = absurd (cc)

-- What a success of `settle` tells of the body.
pub settle-ok {ℓ} :
    {A : Type ℓ} (s : State) (out : Result A × State) (a : A)
    → (settle s out).0 ≡ ok a
    → out.0 ≡ ok a
unfolding settle
settle-ok s (ok b, t) a h = h
settle-ok s (err e, t) a h = h

-- A savepoint whose body has returned keeps what the body has written.
pub settle_keeps {ℓ} :
    {A : Type ℓ} (s : State) (out : Result A × State) (a : A)
    → (settle s out).0 ≡ ok a
    → (settle s out).1 ≡ out.1
unfolding settle
settle_keeps s (ok b, t) a h = refl
settle_keeps s (err e, t) a h = absurd (cc)

-- Where a sequence returns a value, both actions do.
pub bind-ok {ℓ κ} :
    {A : Type ℓ} {B : Type κ} (m : Action A) (f : A → Action B) (s : State) (b : B)
    → ((m >>= f) s).0 ≡ ok b
    → (a : A) × ((m s).0 ≡ ok a) × ((f a (m s).1).0 ≡ ok b)
bind-ok {A} {B} m f s b =
    bind_rule (λ out. out.0 ≡ ok b → (a : A) × ((m s).0 ≡ ok a) × ((f a (m s).1).0 ≡ ok b)) m f s
      (λ a e k. (a, e, k)) (λ e f k. absurd (cc))

-- Where the first action returns a value, the sequence goes on with it.
pub bind_runs {ℓ κ} :
    {A : Type ℓ} {B : Type κ} (m : Action A) (f : A → Action B) (s : State) (a : A)
    → (m s).0 ≡ ok a
    → (m >>= f) s ≡ f a (m s).1
bind_runs {A} {B} m f s a = go (m s).0 (m s).1
  where
    go :
        (r : Result A) (t : State) → r ≡ ok a → elim r [ ok b ↦ f b t | err e ↦ (err e, t) ] ≡ f a t
    go (ok b) t h = let same : b ≡ a = cc in ap (λ (x : A). f x t) same
    go (err e) t h = absurd (cc)

-- What is left of a call once its result is dropped: the exception, if it raised one.
abbrev pub outcome {ℓ} : {A : Type ℓ} → Result A × State → Result (Unit {0}) × State
outcome (ok a, s) = (ok tt, s)
outcome (err e, s) = (err e, s)
