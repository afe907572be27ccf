-- ===== src/Ops/Workspace/Sound.antt =====
-- The requests that ended failed.
use stigmergy.Prelude.{ℕ, ◌≡◌, String, Bool, false, any, In, Text, Option}
use stigmergy.Ops.Workspace.State.{Workspace, World, Error, has_id, request}
use stigmergy.Ops.Workspace.Run.{Outside, turn}
use stigmergy.Ops.Workspace.Cuts.{Point, cut_turn}

-- What happens to the requests: one is asked for under a new id, the worker takes a turn, a turn is cut
-- short at any point, and all else changes as it will, but that no removal of a repository is undone.
pub data Course (w : World) : World → Type 0 where
  at_first : Course w w
  asked :
      {v : World} (t : Workspace) (confirm : Text) (actor : String) (id now : ℕ)
      → Course w v
      → any (has_id id) v.requests ≡ false
      → Course w (request t confirm actor id now v).1
  took_turn :
      {v : World} (out : Outside) (acquired : Bool) (now : ℕ) (locked : ℕ → Bool)
      → Course w v
      → Course w (turn out acquired now locked v).1
  cut_short :
      {v : World} (out : Outside) (acquired : Bool) (now : ℕ) (locked : ℕ → Bool) (point : Point)
      (how : Option Error)
      → Course w v
      → Course w (cut_turn out acquired now locked point how v)
  elsewhere :
      {v : World} (u : World)
      → Course w v
      → u.requests ≡ v.requests
      → ((repo : String) → In repo v.removed → In repo u.removed)
      → Course w u
