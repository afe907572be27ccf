-- ===== src/Tests/Health.antt =====
-- An index that was rebuilt, and then missed a commit (src/stigmergy/index/health.py).
use stigmergy.Prelude.{ℕ, ◌+◌, ◌<◌, ◌≡◌, ◌⊎◌, true, false, none, some, List, [], ◌∷◌, arith, In}
use stigmergy.Index.Health.{
  Health, ensure_schema, mark_dirty, record_full_rebuild, convergence_grace, not_converged,
  rebuild_is_old, warnings,
}
use stigmergy.Index.Health.Noticed.{
  created, rebuilt, marked, IsConsistent, Event, happen, Run-noticed,
}

abbrev fresh : Health
fresh = record_full_rebuild 7 "a" 3 (some (ensure_schema 5 none))

abbrev behind : Health
behind = mark_dirty 9 "b" (some fresh)

Run-noticed_example :
    IsConsistent 9 behind
    × (behind.dirty ≡ true
        → (es : List Event) (later : ℕ) → 9 + convergence_grace < later
        → In not_converged (warnings later (some (happen es behind))))
    × (behind.dirty ≡ false
        → (later : ℕ)
        → (warnings later (some behind) ≡ [])
          ⊎ (warnings later (some behind) ≡ rebuild_is_old ∷ []))
Run-noticed_example =
    Run-noticed 9 behind (marked 9 "b" (rebuilt 7 "a" 3 (created 5) (omega arith)) (omega arith))
