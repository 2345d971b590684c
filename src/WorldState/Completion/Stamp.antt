-- ===== src/WorldState/Completion/Stamp.antt =====
-- services/world_state.py: setting the time of completion writes nothing.
use elowyn_assist.Common.{ℕ, ◌≡◌, refl, Bool, true, false, Option}
use elowyn_assist.Db.Store.{State}
use elowyn_assist.WorldState.Completion.{stamp}

pub stamp-db : (m f g : Bool) (old : Option ℕ) (s : State) → (stamp m f g old s).1.db ≡ s.db
unfolding stamp
stamp-db false f g old s = refl
stamp-db true true g old s = refl
stamp-db true false true old s = refl
stamp-db true false false old s = refl

pub stamp-next_id :
    (m f g : Bool) (old : Option ℕ) (s : State) → (stamp m f g old s).1.next_id ≡ s.next_id
unfolding stamp
stamp-next_id false f g old s = refl
stamp-next_id true true g old s = refl
stamp-next_id true false true old s = refl
stamp-next_id true false false old s = refl
