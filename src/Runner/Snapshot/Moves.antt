-- ===== src/Runner/Snapshot/Moves.antt =====
-- What a chain of calls keeps: relations between the worlds before and after an operation.
use csaf_trove.Base.{Bool, true, false}
use csaf_trove.Base.Effect.{Result, ok, err}
use csaf_trove.Runner.World.{
  World, Action, continue, ◌>>=◌, ◌>>◌, pure, read, branch, when, warn_only, forgive,
}

module _ {D : Type 0} (R : World D → World D → Type 0) where
  -- However it ends, the operation relates the world that it found to the one that it leaves.
  pub record Moves {A : Type 0} (m : Action D A) : Type 0 where
    pub moves : (w : World D) → R w (m w).1

module _ {D : Type 0} (R : World D → World D → Type 0)
    (trans : (u v w : World D) → R u v → R v w → R u w) (same : (w : World D) → R w w) where
  continue-Moves :
      {A B : Type 0} (f : A → Action D B) (w : World D) (r : Result A × World D)
      → R w r.1
      → ((a : A) → Moves R (f a))
      → R w (continue f r).1
  continue-Moves f w (ok a, v) h k = trans w v (f a v).1 h ((k a).moves v)
  continue-Moves f w (err e, v) h k = h

  pub bind-Moves :
      {A B : Type 0} (m : Action D A) (f : A → Action D B)
      → Moves R m
      → ((a : A) → Moves R (f a))
      → Moves R (m >>= f)
  unfolding ◌>>=◌
  bind-Moves m f h k = record { moves = λ w. continue-Moves f w (m w) (h.moves w) k }

  pub then-Moves :
      {A B : Type 0} (m : Action D A) (k : Action D B) → Moves R m → Moves R k → Moves R (m >> k)
  unfolding ◌>>◌
  then-Moves m k h g = record { moves = λ w. continue-Moves (λ _. k) w (m w) (h.moves w) (λ _. g) }

  pub read-Moves : {A : Type 0} (f : World D → Result A) → Moves R (read f)
  unfolding read
  read-Moves f = record { moves = same }

  pub branch-Moves :
      {A : Type 0} (b : Bool) (m k : Action D A) → Moves R m → Moves R k → Moves R (branch b m k)
  unfolding branch
  branch-Moves true m k h g = h
  branch-Moves false m k h g = g

  pub when-Moves : (b : Bool) (m : Action D Unit) → Moves R m → Moves R (when b m)
  unfolding when pure
  when-Moves b m h = branch-Moves b m (pure tt) h (read-Moves (λ w. ok tt))

  forgive-Moves : {A : Type 0} (w : World D) (r : Result A × World D) → R w r.1 → R w (forgive r).1
  forgive-Moves w (r, v) h = h

  pub warn_only-Moves : {A : Type 0} (m : Action D A) → Moves R m → Moves R (warn_only m)
  unfolding warn_only
  warn_only-Moves m h = record { moves = λ w. forgive-Moves w (m w) (h.moves w) }

pub Moves-weaken :
    {D A : Type 0} (R S : World D → World D → Type 0) (m : Action D A)
    → ((w v : World D) → R w v → S w v)
    → Moves R m
    → Moves S m
Moves-weaken R S m weaker h = record { moves = λ w. weaker w (m w).1 (h.moves w) }
