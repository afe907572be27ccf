-- ===== src/Tests/Server.antt =====
-- The limits of src/stigmergy/server/ratelimit.py on small tables.
use stigmergy.Prelude.{◌≡◌, ◌≤◌, ◌*◌, ◌+◌, refl, List, [], ◌∷◌, length, keep, leb, arith}
use stigmergy.Prelude.Dict
use stigmergy.Server.RateLimit.{minute, Limiter, ask, other}
use stigmergy.Server.RateLimit.Bound.{Call, admissions, duration, admissions_bound}
use stigmergy.Server.Throttle.{Throttle, blocked, counts_at, blocked_exact}

abbrev fresh : Limiter
fresh = record {
  overall_per_min = 2;
  ask_per_min = 1;
  delete_per_min = 1;
  capture_per_min = 1;
  overall = [];
  asks = [];
  deletes = [];
  submits = [];
}

abbrev calls : List Call
calls =
    record { delay = 0; identity = "ana"; tool = other }
    ∷ record { delay = 5; identity = "ana"; tool = ask }
    ∷ record { delay = 5; identity = "bo"; tool = ask }
    ∷ record { delay = 5; identity = "ana"; tool = other }
    ∷ []

admissions_bound_example : admissions "ana" 7 fresh calls * minute ≤ 2 * (minute + duration calls)
admissions_bound_example = admissions_bound "ana" 7 fresh calls (unfold Dict.get in refl)

abbrev spent : Limiter
spent = record fresh { overall = ("ana", record { capacity = 2; tokens = 0; last = 9 }) ∷ [] }

abbrev watched : Throttle
watched = record { failures = 2; window = 10; seen = ("1.2.3.4", 1 ∷ 5 ∷ 9 ∷ []) ∷ [] }

blocked_exact_example :
    (blocked "1.2.3.4" 12 watched).0 ≡ leb 2 (length (keep (counts_at 10 12) (1 ∷ 5 ∷ 9 ∷ [])))
blocked_exact_example =
    blocked_exact "1.2.3.4" 12 watched (1 ∷ 5 ∷ 9 ∷ []) (unfold Dict.get in refl)
      ((omega arith, (omega arith, tt)), ((omega arith, tt), (tt, tt)))
