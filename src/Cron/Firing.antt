-- ===== src/Cron/Firing.antt =====
-- When an entry of the cron scheduler is due, by the times of its schedule.
use kojin.Prelude.{
  ◌≤◌, ◌<◌, ◌≡◌, refl, Bool, true, false, Option, none, some, List, [], ◌∷◌, arith, if◌then◌else◌,
  Option-cases, inl, inr,
}
use kojin.Message.{DateTime}
use kojin.Cron.{is_due}

-- What the crate says of `after`: it returns the first scheduled time after the given one, if there
-- is any.
pub record IsSchedule {Schedule : Type 0} (after : Schedule → DateTime → Option DateTime)
    (At : Schedule → DateTime → Type 0) : Type 0 where
  pub found : (s : Schedule) (t n : DateTime) → after s t ≡ some n → At s n × (t < n)
  pub first : (s : Schedule) (t n u : DateTime) → after s t ≡ some n → At s u → t < u → n ≤ u
  pub nothing : (s : Schedule) (t u : DateTime) → after s t ≡ none → At s u → u ≤ t

module _ {Schedule : Type 0} (after : Schedule → DateTime → Option DateTime) where
  -- The runs of one entry over turns at the times `nows`, its last run being at `last`.
  unfoldable pub runs : Schedule → DateTime → List DateTime → List DateTime
  runs s last [] = []
  runs s last (now ∷ nows) =
      let again = runs s now nows in
      let later = runs s last nows in if is_due after s last now then now ∷ again else later

module _ {Schedule : Type 0} (after : Schedule → DateTime → Option DateTime)
    (At : Schedule → DateTime → Type 0) (lawful : IsSchedule after At) where
  due_sound :
      (s : Schedule) (last now : DateTime)
      → is_due after s last now ≡ true
      → (u : DateTime) × At s u × (last < u) × (u ≤ now)
  due_sound s last now h = elim (Option-cases (after s last)) [
    | inl e ↦ absurd (ground (arith, e, h))
    | inr (n, e) ↦
        (n, (lawful.found s last n e).0, (lawful.found s last n e).1, ground (arith, e, h))
  ]

  due_complete :
      (s : Schedule) (last now u : DateTime)
      → At s u
      → last < u
      → u ≤ now
      → is_due after s last now ≡ true
  due_complete s last now u at later past = elim (Option-cases (after s last)) [
    | inl e ↦ absurd (omega (arith, lawful.nothing s last u e at))
    | inr (n, e) ↦ rw (e, is_due) (ground (arith, lawful.first s last n u e at later))
  ]

  -- Each run answers to a scheduled time after the run before it, and each scheduled time that has
  -- passed at a turn has been answered by a run.
  pub data Answered (s : Schedule) : DateTime → List DateTime → List DateTime → Type 0 where
    over : {last : DateTime} → Answered s last [] []
    run :
        {last now : DateTime} {nows times : List DateTime} (u : DateTime)
        → At s u
        → last < u
        → u ≤ now
        → Answered s now nows times
        → Answered s last (now ∷ nows) (now ∷ times)
    wait :
        {last now : DateTime} {nows times : List DateTime}
        → ((u : DateTime) → At s u → u ≤ now → u ≤ last)
        → Answered s last nows times
        → Answered s last (now ∷ nows) times

  answer :
      (s : Schedule) (last now : DateTime) (nows again later : List DateTime) (b : Bool)
      → is_due after s last now ≡ b
      → Answered s now nows again
      → Answered s last nows later
      → Answered s last (now ∷ nows) (if b then now ∷ again else later)
  answer s last now nows again later true e p q =
      let (u, at, after_last, past) = due_sound s last now e in run u at after_last past p
  answer s last now nows again later false e p q =
      wait (λ u at past. ground (arith, due_complete s last now u at, e)) q

  -- An entry runs at a turn exactly when one of its scheduled times lies after its last run and not
  -- after the turn: no scheduled time makes it run twice, and none that a turn has reached is passed
  -- over, though several that lie between two turns make it run once.
  pub runs-Answered :
      (s : Schedule) (last : DateTime) (nows : List DateTime)
      → Answered s last nows (runs after s last nows)
  unfolding runs
  runs-Answered s last [] = over
  runs-Answered s last (now ∷ nows) =
      answer s last now nows _ _ (is_due after s last now) refl (runs-Answered s now nows)
        (runs-Answered s last nows)
