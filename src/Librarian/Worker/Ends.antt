-- ===== src/Librarian/Worker/Ends.antt =====
-- How a turn of the worker leaves the job that it claimed.
use stigmergy.Prelude.{ℕ, Bool, true, false, ◌&&◌, Option, none, some, ltb}
use stigmergy.Kernel.Tenancy.{Session}
use stigmergy.Capture.Json.{Fields}
use stigmergy.Capture.Schema.{Item, Db}
use stigmergy.Capture.Queue.Base.{default_max_attempts}
use stigmergy.Capture.Queue.Settle.{landed_row, failed_row, released_row}
use stigmergy.Librarian.Worker.{
  Ending, filed, stopped, aborted, lost, broke, Turn, processed, shutdown, lease_abort, state_error,
  failure_of, retryable, Moment, claim_in_scope,
}

-- the row with what the writer noted of the extraction
abbrev pub noted : Option Fields → Item → Item
noted none r = r
noted (some e) r = record r { extraction = e }

-- whether a failure of attempt `a` goes back to the queue
abbrev pub tries_again : ℕ → Ending → Bool
tries_again a (broke e) = retryable e && ltb a default_max_attempts
tries_again a _ = false

-- What becomes of a row claimed with attempt `a`: it lands, fails or waits for another attempt, or
-- goes back as if it had not been claimed; under a lease that is running out it stays.
abbrev pub left_as : ℕ → ℕ → Item → Ending → Item
left_as now a r (filed landing) = landed_row now landing r
left_as now a r stopped = released_row now r
left_as now a r aborted = r
left_as now a r (lost e) = r
left_as now a r (broke e) = failed_row now (tries_again a (broke e)) (failure_of e) r

abbrev pub told : ℕ → ℕ → Item → Ending → Turn
told now a r (filed landing) = processed (landed_row now landing r)
told now a r stopped = shutdown
told now a r aborted = lease_abort
told now a r (lost e) = state_error e
told now a r (broke e) = processed (failed_row now (tries_again a (broke e)) (failure_of e) r)

-- the claim of a turn, in the scope of the platform
abbrev pub claim_of : Moment → Session → Db → Option Item × Db
claim_of m c db = (claim_in_scope m db (record c { platform = true })).0
