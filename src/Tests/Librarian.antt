-- ===== src/Tests/Librarian.antt =====
-- The writer process (src/stigmergy/librarian): a capture whose model call times out, and a daily job.
use stigmergy.Prelude.{ℕ, ◌≤◌, ◌<◌, ◌%◌, ◌≡◌, ◌↔◌, true, false, none, some, arith, codes}
use stigmergy.Kernel.Tenancy.{Session}
use stigmergy.Capture.Json.{end}
use stigmergy.Capture.Schema.{Item}
use stigmergy.Librarian.Worker.{Exception, transport, broke, Work, Moment}
use stigmergy.Librarian.Schedule.{TimeOfDay, offset, daily_due, day}
use stigmergy.Librarian.Schedule.Due.{daily_due_exact}
use stigmergy.Tests.Queue.{free}

abbrev idle_session : Session
idle_session = record { tenant = none; platform = false }

abbrev timed_out : Exception
timed_out = record {
  kind = transport;
  name = codes "ReadTimeout";
  message = codes "timed out";
  category = none;
  retryable = none;
  fresh_budget = true;
}

abbrev times_out : Item → Work
times_out r = record { extraction = some end; ending = broke timed_out }

abbrev moment : Moment
moment = record {
  now = 5;
  clock = 6;
  settled = 8;
  locked = free;
  acquired = true;
  timeout = 900;
  batch = 10;
  budget = 60;
}

abbrev morning : TimeOfDay
morning = record { hour = 5; minute = 7 }

daily_due_exact_example :
    (daily_due 200_000_000_000 (some 100_000_000_000) morning ≡ true)
    ↔ ((s : ℕ) × (100_000_000_000 < s) × (s ≤ 200_000_000_000) × (s % day ≡ offset morning))
daily_due_exact_example =
    daily_due_exact 200_000_000_000 100_000_000_000 morning (omega arith) (omega arith)
