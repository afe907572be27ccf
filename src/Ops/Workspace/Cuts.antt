-- ===== src/Ops/Workspace/Cuts.antt =====
-- src/stigmergy/ops/erase_workspace.py and `_maybe_erase_workspace` of librarian/worker.py: a run that
-- does not come to its end, because a step raises or the writer is killed.
use stigmergy.Prelude.{ℕ, Bool, ◌&&◌, Option, none, some, if◌then◌else◌}
use stigmergy.Ops.Workspace.State.{Deletion, World, Error, claim, fail, pending}
use stigmergy.Ops.Workspace.Run.{
  Outside, github_removes, remove_repository, remove_rows, drop_indexes, remove_evidence, sweep,
  garbage_of, through_indexes, through_evidence,
}

-- Where a run may be cut short: between two of its transactions, or between an effect outside the
-- database and the record of it.
pub data Point : Type 0 where
  at_claim repository_removed repository_recorded rows_removed evidence_swept evidence_recorded :
      Point

-- what a run that is cut short there leaves, or one that raised before it
unfoldable pub left_at : Point → Outside → Deletion → World → World
unfolding github_removes remove_repository remove_rows drop_indexes remove_evidence sweep
left_at at_claim out item w = w
left_at repository_removed out item w = (github_removes out item w).1
left_at repository_recorded out item w = (remove_repository out item item.receipt w).1
left_at rows_removed out item w = (through_indexes out item w).1
left_at evidence_swept out item w =
    let v = (through_indexes out item w).1 in
    elim out.evidence [
      | none ↦ v
      | some refuses ↦ record v {
        objects = (sweep refuses v.tables (garbage_of out item v) v.objects).1;
      }
    ]
left_at evidence_recorded out item w = (through_evidence out item w).1

-- A turn that is cut short in its run. The writer was killed, and the request is left running; or the
-- step raised, as when a record fails, and the request ends its attempt.
abbrev pub cut_after : Point → Option Error → Outside → ℕ → Option Deletion × World → World
cut_after point how out now (none, w) = w
cut_after point how out now (some r, w) =
    let left = left_at point out r w in elim how [ none ↦ left | some e ↦ fail now r e left ]

unfoldable pub cut_turn : Outside → Bool → ℕ → (ℕ → Bool) → Point → Option Error → World → World
unfolding pending claim left_at fail
cut_turn out acquired now locked point how w =
    if pending now w && acquired then cut_after point how out now (claim now locked w) else w
