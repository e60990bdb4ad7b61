-- ===== src/Runner/Snapshot/Outcomes.antt =====
-- How chains of calls end: what a success ran through, and what a failure leaves.
use mathlib.Core.Path.{subst}
use csaf_trove.Base.{◌≡◌, refl, ap, ◌⊎◌, inl, inr}
use csaf_trove.Base.Text.{Text}
use csaf_trove.Base.Effect.{Result, ok, err}
use csaf_trove.Runner.World.{World, Action, continue, ◌>>=◌, ◌>>◌}
use csaf_trove.Runner.Snapshot.Moves.{Moves}

module _ {D : Type 0} where
  continue-ok :
      {A B : Type 0} (f : A → Action D B) (r : Result A × World D) (b : B) (w' : World D)
      → continue f r ≡ (ok b, w')
      → (a : A) × (v : World D) × (r ≡ (ok a, v)) × (f a v ≡ (ok b, w'))
  continue-ok f (ok a, v) b w' h = (a, v, refl, h)
  continue-ok f (err e, v) b w' h = cc

  pub bind-ok :
      {A B : Type 0} (m : Action D A) (f : A → Action D B) (w w' : World D) (b : B)
      → (m >>= f) w ≡ (ok b, w')
      → (a : A) × (v : World D) × (m w ≡ (ok a, v)) × (f a v ≡ (ok b, w'))
  unfolding ◌>>=◌
  bind-ok m f w w' b h = continue-ok f (m w) b w' h

  pub next-ok :
      {A B : Type 0} (m : Action D A) (k : Action D B) (w w' : World D) (b : B)
      → (m >> k) w ≡ (ok b, w')
      → (a : A) × (v : World D) × (m w ≡ (ok a, v)) × (k v ≡ (ok b, w'))
  unfolding ◌>>◌
  next-ok m k w w' b h = continue-ok (λ _. k) (m w) b w' h

  continue-eq :
      {A B : Type 0} (f : A → Action D B) (r : Result A × World D) (a : A) (v : World D)
      → r ≡ (ok a, v)
      → continue f r ≡ f a v
  continue-eq f r a v h = ap (continue f) h

  -- A chain whose first operation succeeds goes on from there.
  pub bind-run :
      {A B : Type 0} (m : Action D A) (f : A → Action D B) (w v : World D) (a : A)
      → m w ≡ (ok a, v)
      → (m >>= f) w ≡ f a v
  unfolding ◌>>=◌
  bind-run m f w v a h = continue-eq f (m w) a v h

  pub next-run :
      {A B : Type 0} (m : Action D A) (k : Action D B) (w v : World D) (a : A)
      → m w ≡ (ok a, v)
      → (m >> k) w ≡ k v
  unfolding ◌>>◌
  next-run m k w v a h = continue-eq (λ _. k) (m w) a v h

  continue-err-cases :
      {A B : Type 0} (f : A → Action D B) (r : Result A × World D) (e : Text) (w' : World D)
      → continue f r ≡ (err e, w')
      → (r ≡ (err e, w')) ⊎ ((a : A) × (v : World D) × (r ≡ (ok a, v)) × (f a v ≡ (err e, w')))
  continue-err-cases f (ok a, v) e w' h = inr (a, v, refl, h)
  continue-err-cases f (err _, v) e w' h = inl cc

  -- A chain that fails does so at its first operation or behind it.
  pub bind-err :
      {A B : Type 0} (m : Action D A) (f : A → Action D B) (w w' : World D) (e : Text)
      → (m >>= f) w ≡ (err e, w')
      → (m w ≡ (err e, w')) ⊎ ((a : A) × (v : World D) × (m w ≡ (ok a, v)) × (f a v ≡ (err e, w')))
  unfolding ◌>>=◌
  bind-err m f w w' e h = continue-err-cases f (m w) e w' h

  pub next-err :
      {A B : Type 0} (m : Action D A) (k : Action D B) (w w' : World D) (e : Text)
      → (m >> k) w ≡ (err e, w')
      → (m w ≡ (err e, w')) ⊎ ((a : A) × (v : World D) × (m w ≡ (ok a, v)) × (k v ≡ (err e, w')))
  unfolding ◌>>◌
  next-err m k w w' e h = continue-err-cases (λ _. k) (m w) e w' h

module _ {D : Type 0} (R : World D → World D → Type 0) where
  -- When it fails, the operation relates the world that it found to the one that it leaves.
  pub record Fails {A : Type 0} (m : Action D A) : Type 0 where
    pub fails : (w : World D) (e : Text) (w' : World D) → m w ≡ (err e, w') → R w w'

  pub Moves-Fails : {A : Type 0} (m : Action D A) → Moves R m → Fails m
  Moves-Fails m h = record {
    fails = λ w e w' ends. subst (λ (r : Result _ × World D). R w r.1) ends (h.moves w);
  }

  -- A last step that does not fail does not count.
  pub total-Fails :
      {A : Type 0} (m : Action D A)
      → ((w : World D) → (a : A) × (v : World D) × (m w ≡ (ok a, v)))
      → Fails m
  total-Fails m h = record { fails = λ w e w' ends. let (a, v, ran) = h w in cc }

module _ {D : Type 0} (R : World D → World D → Type 0)
    (trans : (u v w : World D) → R u v → R v w → R u w) where
  continue-err :
      {A B : Type 0} (f : A → Action D B) (w : World D) (r : Result A × World D) (e : Text)
      (w' : World D)
      → R w r.1
      → ((a : A) → Fails R (f a))
      → continue f r ≡ (err e, w')
      → R w w'
  continue-err f w (ok a, v) e w' h k ends = trans w v w' h ((k a).fails v e w' ends)
  continue-err f w (err _, v) e w' h k ends =
      let same : v ≡ w' = cc in subst (λ (u : World D). R w u) same h

  pub bind-Fails :
      {A B : Type 0} (m : Action D A) (f : A → Action D B)
      → Moves R m
      → ((a : A) → Fails R (f a))
      → Fails R (m >>= f)
  unfolding ◌>>=◌
  bind-Fails m f h k = record {
    fails = λ w e w' ends. continue-err f w (m w) e w' (h.moves w) k ends;
  }

  pub next-Fails :
      {A B : Type 0} (m : Action D A) (k : Action D B) → Moves R m → Fails R k → Fails R (m >> k)
  unfolding ◌>>◌
  next-Fails m k h g = record {
    fails = λ w e w' ends. continue-err (λ _. k) w (m w) e w' (h.moves w) (λ _. g) ends;
  }
