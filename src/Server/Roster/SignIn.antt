-- ===== src/Server/Roster/SignIn.antt =====
-- A session from its opening to its use (src/stigmergy/server/roster.py).
use stigmergy.Prelude.{ℕ, List, [], ◌∷◌, ◌++◌, Text, ◌+◌}
use stigmergy.Server.Roster.{Visit, Roster, Principal}
use stigmergy.Server.Roster.Sessions.{Session}
use stigmergy.Server.Roster.Sessions.{session_absolute, new_visit}

module _ (digest : Text → Text) (now later : ℕ) (value : Text) where
  abbrev opened : Principal → ℕ → Session
  opened who id = record { principal = who; token_id = id; expires_at = now + session_absolute }

  abbrev entry : Roster → List Visit → Principal → ℕ → Roster
  entry r visits who id = record r { visits = visits ++ new_visit digest now value who id ∷ [] }
