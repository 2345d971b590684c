-- ===== src/WorldState/Undo/Effect.antt =====
-- services/world_state.py: which event an undo reverses, and what it appends.
use elowyn_assist.Common.{
  ℕ, ◌≡◌, refl, sym, subst, Bool, true, false, ◌&&◌, Option, none, some, List, [], ◌∷◌, ◌++◌, any,
  is_id, Option-cases, inl, inr, beq_refl, arith,
}
use elowyn_assist.Domain.Errors.{Result, ok, err}
use elowyn_assist.Db.Rows.{Event}
use elowyn_assist.Db.Queries.{latest}
use elowyn_assist.Db.Queries.Latest.{IsLatest, latest-IsLatest}
use elowyn_assist.Db.Store.{Db, State}
use elowyn_assist.Mutation.{
  Action, ActionContext, query, operation, bind_rule, bind-ok, settle, settle-ok,
  atomic_domain_action, append_reversal, ◌>>=◌,
}
use elowyn_assist.WorldState.Guards.{active_entity}
use elowyn_assist.WorldState.Events.{record_undo}
use elowyn_assist.WorldState.Undo.Restore.{Restoration}
use elowyn_assist.WorldState.Undo.{
  undoable, is_open, undo_entity, undo_target, restore, apply_undo, undo_entity_change,
  undo_last_change_body, undo_last_change,
}

-- `event` is new and reverses the latest open event of an entity, which is not open any more.
pub record IsUndone (entity : ℕ) (before after : List Event) (event : Event) : Type 0 where
  pub target : Event
  pub latest_open : IsLatest (λ e. is_open before e && is_id e.entity_id entity) before target
  pub reverses : event.reverses_event_id ≡ some target.id
  pub appended : after ≡ before ++ event ∷ []
  pub closed : is_open after target ≡ false

any-last {ℓ} :
    {A : Type ℓ} (p : A → Bool) (xs : List A) (x : A) → p x ≡ true → any p (xs ++ x ∷ []) ≡ true
any-last p [] x h = ground arith
any-last p (y ∷ xs) x h = ground (arith, any-last p xs x h)

closed_by :
    (before : List Event) (event target : Event)
    → event.reverses_event_id ≡ some target.id
    → is_open (before ++ event ∷ []) target ≡ false
closed_by before event target h =
    let reversed =
      any-last (λ (r : Event). is_id r.reverses_event_id target.id) before event
        (subst (λ o. is_id o target.id ≡ true) (sym h) (beq_refl target.id)) in
    ground arith

-- What an undo of the entity has done, if it returns.
abbrev Undone : ℕ → State → Result Event × State → Type 0
Undone i s out = (event : Event) → out.0 ≡ ok event → IsUndone i s.db.events out.1.db.events event

undo_target-IsLatest :
    (i : ℕ) (db : Db) (target : Event)
    → undo_target i db ≡ ok target
    → IsLatest (λ e. is_open db.events e && is_id e.entity_id i) db.events target
unfolding undo_target
undo_target-IsLatest i db target h =
    elim (Option-cases (latest (λ e. is_open db.events e && is_id e.entity_id i) db.events)) [
      | inl nothing ↦ absurd (ground arith)
      | inr (e, found) ↦
          latest-IsLatest (λ e. is_open db.events e && is_id e.entity_id i) db.events target
            (ground arith)
    ]

-- The event that was made is the one that is returned.
IsUndone-made :
    (i : ℕ) (before after : List Event) (target made event : Event)
    → IsLatest (λ e. is_open before e && is_id e.entity_id i) before target
    → after ≡ before ++ made ∷ []
    → made.reverses_event_id ≡ some target.id
    → ok made ≡ ok event
    → IsUndone i before after event
IsUndone-made i before after target made event l appended reverses h =
    let same : made ≡ event = cc in
    subst (IsUndone i before after) same (record {
      target = target;
      latest_open = l;
      reverses = reverses;
      appended = appended;
      closed =
          subst (λ es. is_open es target ≡ false) (sym appended)
            (closed_by before made target reverses);
    })

apply_undo-Undone :
    (i : ℕ) (target : Event) (ctx : ActionContext) (found : Restoration) (s : State)
    → IsLatest (λ e. is_open s.db.events e && is_id e.entity_id i) s.db.events target
    → Undone i s (apply_undo target ctx found s)
unfolding apply_undo record_undo append_reversal operation
apply_undo-Undone i target ctx found s l event h =
    IsUndone-made i s.db.events (apply_undo target ctx found s).1.db.events target _ event l refl
      refl h

undo_entity_change-Undone :
    (ctx : ActionContext) (i : ℕ) (s : State) → Undone i s (undo_entity_change ctx i s)
unfolding undo_entity_change
undo_entity_change-Undone ctx i s =
    bind_rule (Undone i s) (query (active_entity i none)) (λ _. query (undo_target i) >>= change) s
      (λ _ _.
        bind_rule (Undone i s) (query (undo_target i)) change s
          (λ target e.
            bind_rule (Undone i s) (query (recovered target)) (apply_undo target ctx) s
              (λ found _.
                apply_undo-Undone i target ctx found s (undo_target-IsLatest i s.db target e))
              (λ _ _ _ k. absurd (cc)))
          (λ _ _ _ k. absurd (cc)))
      (λ _ _ _ k. absurd (cc))
  where
    recovered : Event → Db → Result Restoration
    recovered target = restore (undoable target.event_type) i target ctx.source

    change : Event → Action Event
    change target = query (recovered target) >>= apply_undo target ctx

settle-Undone :
    (i : ℕ) (s : State) (out : Result Event × State) → Undone i s out → Undone i s (settle s out)
unfolding settle
settle-Undone i s (ok a, t) h event k = h event k
settle-Undone i s (err e, t) h event k = absurd (cc)

-- An undo that returns has appended one event, the one that it returns. That event reverses the
-- latest event of its entity that was of an update and not yet reversed, and from then on that event
-- counts as reversed. If the call named an entity, it is this one.
pub undo_last_change-IsUndone :
    (ctx : ActionContext) (entity_id : Option ℕ) (s : State) (event : Event)
    → (undo_last_change ctx entity_id s).0 ≡ ok event
    → (i : ℕ) × (undo_entity entity_id s.db ≡ ok i)
      × IsUndone i s.db.events (undo_last_change ctx entity_id s).1.db.events event
unfolding undo_last_change undo_last_change_body atomic_domain_action
undo_last_change-IsUndone ctx entity_id s event h =
    let body = undo_last_change_body ctx entity_id in
    let (i, e, _) =
      bind-ok (query (undo_entity entity_id)) (undo_entity_change ctx) s event
        (settle-ok s (body s) event h) in
    (
      i,
      e,
      settle-Undone i s (body s)
          (bind_rule (Undone i s) (query (undo_entity entity_id)) (undo_entity_change ctx) s
            (λ j f.
              subst (λ k. Undone k s (undo_entity_change ctx j s)) (cc)
                (undo_entity_change-Undone ctx j s))
            (λ _ _ _ k. absurd (cc)))
          event h,
    )
