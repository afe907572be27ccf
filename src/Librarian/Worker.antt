-- ===== src/Librarian/Worker.antt =====
-- src/stigmergy/librarian/worker.py: `process_next`, which claims the next job and settles it, and
-- what decides how an error is settled. The writer's `process` is a parameter: what it records of the
-- extraction while it works, and how it ends.
pub mod Ends
use stigmergy.Prelude.{
  ℕ, ◌+◌, ◌≡◌, refl, String, Bool, true, false, ◌&&◌, ◌||◌, Option, none, some, List, ◌++◌, leb,
  ◌==◌, if◌then◌else◌, max, take, codes, one_line, Text,
}
use stigmergy.Kernel.Tenancy.{Session, tenant_scope, platform_scope}
use stigmergy.Capture.Json.{Fields}
use stigmergy.Capture.Schema.{Status, Item, Db}
use stigmergy.Capture.Queue.Base.{Error, Result, ok, err}
use stigmergy.Capture.Queue.Submit.{record_extraction}
use stigmergy.Capture.Queue.Claim.{claim_next, release_expired}
use stigmergy.Capture.Queue.Settle.{Landing, Failure, finish_landed, fail_or_retry, release_claim}

-- what `_retryable` tells exceptions apart by
pub data Kind : Type 0 where
  submission_rejected transport operational connection other : Kind
  model_http : ℕ → Kind

-- an exception: its class, its message, and the attributes that its class gives it
pub record Exception : Type 0 where
  pub kind : Kind
  pub name : Text
  pub message : Text
  pub category : Option Text
  pub retryable : Option Bool
  pub fresh_budget : Bool

abbrev pub is_rejection : Kind → Bool
is_rejection submission_rejected = true
is_rejection _ = false

abbrev pub transient : Kind → Bool
transient submission_rejected = false
transient transport = true
transient operational = true
transient connection = true
transient other = false
transient (model_http code) =
    code == 408 || code == 409 || code == 425 || code == 429 || leb 500 code

-- `_retryable`
unfoldable pub retryable : Exception → Bool
retryable e =
    if is_rejection e.kind then false else elim e.retryable [ some b ↦ b | none ↦ transient e.kind ]

-- `_safe_error`
unfoldable pub safe_error : Exception → Text
unfolding one_line
safe_error e =
    if is_rejection e.kind
    then take 1000 (one_line e.message)
    else codes "knowledge processing failed (" ++ (e.name ++ codes ")")

-- how the block ends: with a result to land, or by WriterShutdown, LeaseAbort, QueueStateError or
-- another exception
pub data Ending : Type 0 where
  filed : Landing → Ending
  stopped aborted : Ending
  lost : Error → Ending
  broke : Exception → Ending

pub record Work : Type 0 where
  pub extraction : Option Fields
  pub ending : Ending

-- what `process_next` returns or raises
pub data Turn : Type 0 where
  nothing : Turn
  processed : Item → Turn
  shutdown lease_abort : Turn
  state_error : Error → Turn

unfoldable pub failure_of : Exception → Failure
unfolding retryable safe_error
failure_of e = record {
  category = elim e.category [ some s ↦ s | none ↦ e.name ];
  error = safe_error e;
  retryable = retryable e;
  fresh_budget = retryable e && e.fresh_budget;
}

abbrev pub turn_of : Result Item × Db → Turn × Db
turn_of (ok row, db) = (processed row, db)
turn_of (err e, db) = (state_error e, db)

abbrev pub note_extraction : Session → ℕ → Option Fields → Db → Db
note_extraction c i none db = db
note_extraction c i (some e) db = record_extraction c i e db

-- a claim holds its lease's time; a row without one matches no fence
abbrev pub lease_time : Option ℕ → ℕ
lease_time none = 0
lease_time (some t) = t

abbrev pub lease_of : Item → ℕ
lease_of r = lease_time r.lease_started_at

unfoldable pub settle_work : Session → ℕ → Item → Ending → Db → Turn × Db
unfolding finish_landed fail_or_retry release_claim failure_of
settle_work c now item (filed landing) db =
    turn_of (finish_landed c now item.id item.attempts (lease_of item) landing db)
settle_work c now item stopped db = (shutdown, (release_claim c now item.id (lease_of item) db).1)
settle_work c now item aborted db = (lease_abort, db)
settle_work c now item (lost e) db = (state_error e, db)
settle_work c now item (broke e) db =
    turn_of (fail_or_retry c now item.id item.attempts (lease_of item) (failure_of e) db)

-- `_process_claimed`; `settled` is the time of the transaction that settles the claim
unfoldable pub process_claimed : (Item → Work) → Session → ℕ → Item → Db → Turn × Db
unfolding record_extraction settle_work
process_claimed process c settled item db =
    let work = process item in
    settle_work c settled item work.ending (note_extraction c item.id work.extraction db)

-- `_release_expired_if_writer_idle`: `acquired` tells whether the writer lock was free
unfoldable pub release_if_idle : Bool → Session → ℕ → ℕ → (ℕ → Bool) → ℕ → Db → Db
unfolding release_expired
release_if_idle acquired c now timeout locked batch db =
    if acquired then (release_expired c now timeout locked batch db).1 else db

-- the times and settings of a turn, and the rows that other transactions hold
pub record Moment : Type 0 where
  pub now : ℕ
  pub clock : ℕ
  pub settled : ℕ
  pub locked : ℕ → Bool
  pub acquired : Bool
  pub timeout : ℕ
  pub batch : ℕ
  pub budget : ℕ

unfoldable pub claim_in_scope : Moment → Db → Session → (Option Item × Db) × Session
unfolding release_if_idle claim_next
claim_in_scope m db p = (
  claim_next p m.now m.clock m.locked m.budget
      (release_if_idle m.acquired p m.now m.timeout m.locked m.batch db),
  p,
)

-- `process_next`
unfoldable pub process_next : (Item → Work) → Moment → Session → Db → Turn × Db
unfolding platform_scope tenant_scope claim_in_scope process_claimed
process_next process m c db =
    let ((claimed, after), back) = platform_scope (claim_in_scope m db) c in
    elim claimed [
      | none ↦ (nothing, after)
      | some item ↦
          (tenant_scope item.tenant_id (λ t. (process_claimed process t m.settled item after, t))
            back).0
    ]
