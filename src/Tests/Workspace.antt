-- ===== src/Tests/Workspace.antt =====
-- The deletion of a workspace (src/stigmergy/ops/erase_workspace.py) beside another one that shares
-- the tables and the store.
use stigmergy.Prelude.{ℕ, refl, String, Bool, true, false, none, some, List, [], ◌∷◌}
use stigmergy.Ops.Workspace.State.{
  Workspace, active, suspended, World, Deletion, Receipt, Result, ok, new_deletion,
}
use stigmergy.Ops.Workspace.Run.{Outside, run, turn}
use stigmergy.Ops.Workspace.Empties.{IsGone, run-IsGone}
use stigmergy.Ops.Workspace.Others.{Untouched, turn-Untouched}

abbrev old_workspace : Workspace
old_workspace = record {
  id = 1;
  slug = "old";
  name = "Old";
  status = suspended;
  repo = "org/old";
  slack_team = none;
}

abbrev live_workspace : Workspace
live_workspace = record {
  id = 2;
  slug = "live";
  name = "Live";
  status = active;
  repo = "org/live";
  slack_team = none;
}

abbrev deletion : Deletion
deletion = new_deletion 9 100 old_workspace "ana"

abbrev keys : List (String × String)
keys = ("capture_artifacts", "capture_queue") ∷ []

abbrev world : List Deletion → World
world requests = record {
  requests = requests;
  workspaces = old_workspace ∷ live_workspace ∷ [];
  tables =
      record {
        name = "capture_queue";
        rows =
            record { tenant_id = 1; refs = "sha256/a" ∷ "sha256/b" ∷ []; needs = [] }
            ∷ record { tenant_id = 2; refs = "sha256/b" ∷ []; needs = "sha256/b" ∷ [] }
            ∷ [];
      }
      ∷ record {
        name = "capture_artifacts";
        rows = record { tenant_id = 1; refs = []; needs = "sha256/a" ∷ [] } ∷ [];
      }
      ∷ [];
  foreign_keys = keys;
  acting = some 1 ∷ none ∷ [];
  objects = "sha256/a" ∷ "sha256/b" ∷ [];
  removed = [];
  wakes = 0;
}

abbrev removed : String → Result String
removed repo = ok "deleted"

abbrev obeys : String → Bool
obeys ref = false

abbrev no_indexes : ℕ → Result ℕ
no_indexes i = ok 0

abbrev forgotten : ℕ → Result Bool
forgotten i = ok true

abbrev outside : Outside
outside = record {
  remove_repo = some removed;
  evidence = some obeys;
  drop_indexes = no_indexes;
  forget = forgotten;
}

abbrev unlocked : ℕ → Bool
unlocked i = false

turn-Untouched_example :
    Untouched 2 (world (deletion ∷ [])) (turn outside true 200 unlocked (world (deletion ∷ []))).1
turn-Untouched_example =
    turn-Untouched outside true 200 unlocked (world (deletion ∷ [])) 2 (unfold new_deletion in refl)

abbrev finished : Receipt
finished = record {
  repository = some "deleted";
  rows = ("capture_artifacts", 1) ∷ ("capture_queue", 1) ∷ [];
  indexes_dropped = 0;
  evidence_deleted = 1;
  checkout_removed = true;
}

run-IsGone_example : IsGone 1 (run outside deletion (world (deletion ∷ []))).1
run-IsGone_example =
    unfold new_deletion in
    run-IsGone outside deletion (world (deletion ∷ [])) finished (unfold new_deletion in refl)
      (unfold run new_deletion in refl)
