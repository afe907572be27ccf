-- ===== src/Ops/Workspace/Chain.antt =====
-- What the steps of a run keep and give, one after the other.
use stigmergy.Prelude.{◌≡◌, refl}
use stigmergy.Ops.Workspace.State.{World, Result, ok, err}
use stigmergy.Ops.Workspace.Run.{and_then}

-- What holds after the first step, and after the second where it is taken, holds after both.
pub and_then-keeps :
    {A B : Type 0} (P : World → Type 0) (o : Result A × World) (step : A → World → Result B × World)
    → P o.1
    → ((a : A) → o.0 ≡ ok a → P (step a o.1).1)
    → P (and_then o step).1
and_then-keeps P (ok a, w) step h k = k a refl
and_then-keeps P (err e, w) step h k = h

-- Two steps succeed only if the first does.
pub and_then-ok :
    {A B : Type 0} (b : B) (o : Result A × World) (step : A → World → Result B × World)
    → (and_then o step).0 ≡ ok b
    → (a : A) × (o.0 ≡ ok a) × (and_then o step ≡ step a o.1)
and_then-ok b (ok a, w) step h = (a, refl, refl)
and_then-ok b (err e, w) step h = absurd (cc h)
