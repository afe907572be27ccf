-- ===== src/Ops/Erasure.antt =====
-- src/stigmergy/ops/erasure.py: the requests to erase a layer, and how a run's failure is recorded
-- (`run_claimed` and `_may_be_pushed` of ops/erase_layer.py). `now` is the transaction's time in
-- microseconds and `locked` tells the rows that other transactions hold.
pub mod Pushed
pub mod OneOpen
pub mod Course
use Prim.Native.Nat.{◌^◌}
use stigmergy.Prelude.{
  ℕ, ◌+◌, ◌*◌, ◌≡◌, String, Bool, true, false, ◌&&◌, ◌||◌, not, Option, none, some, List, [], ◌∷◌,
  ◌++◌, ltb, leb, ◌==◌, str_eq, if◌then◌else◌, any, find, keep, update_rows, sort_by, min, codes,
  Text, is_empty,
}
use stigmergy.Kernel.Tenancy.{Session, visible}
use stigmergy.Kernel.Layers.{public, is_layer_name}
use stigmergy.Capture.Json.{Fields, end}
use stigmergy.Capture.Schema.{
  ErasureStatus, waiting, running, succeeded, abandoned, is_open, seconds, coalesce,
}

abbrev pub max_attempts : ℕ
max_attempts = 3

abbrev pub backoff_base_s : ℕ
backoff_base_s = 30

abbrev pub backoff_cap_s : ℕ
backoff_cap_s = 900

-- one row of layer_erasures
pub record Request : Type 0 where
  pub id : ℕ
  pub tenant_id : ℕ
  pub layer : String
  pub requested_by : String
  pub requested_at : ℕ
  pub status : ErasureStatus
  pub attempts : ℕ
  pub next_attempt_at : ℕ
  pub started_at : Option ℕ
  pub finished_at : Option ℕ
  pub names : List String
  pub old_head : String
  pub new_head : String
  pub rewrite : Fields
  pub pushed : Bool
  pub garbage : List String
  pub counts : Fields
  pub receipt : Fields
  pub error : String

pub data Refused : Type 0 where
  not_restricted unknown_layer under_way no_tenant : Refused

pub data Asked : Type 0 where
  queued : Request → Asked
  refused : Refused → Asked

abbrev pub is_running : ErasureStatus → Bool
is_running running = true
is_running _ = false

unfoldable pub new_request : ℕ → ℕ → ℕ → String → String → Request
new_request tenant id now layer actor = record {
  id = id;
  tenant_id = tenant;
  layer = layer;
  requested_by = actor;
  requested_at = now;
  status = waiting;
  attempts = 0;
  next_attempt_at = now;
  started_at = none;
  finished_at = none;
  names = [];
  old_head = "";
  new_head = "";
  rewrite = end;
  pushed = false;
  garbage = [];
  counts = end;
  receipt = end;
  error = "";
}

-- the partial unique index on (tenant_id, layer) of open requests
abbrev pub open_for : ℕ → String → Request → Bool
open_for tenant layer r = (r.tenant_id == tenant) && (str_eq r.layer layer && is_open r.status)

-- `request`: `groups` are the roster groups that the session sees, `name` is already stripped, and
-- `tenant` is the session's.
unfoldable pub request :
    Option ℕ → List String → ℕ → ℕ → String → String → List Request → Asked × List Request
unfolding new_request
request tenant groups id now name actor rows =
    if str_eq name "public" || not (is_layer_name (codes name))
    then (refused not_restricted, rows)
    else if not (any (λ g. str_eq g name) groups)
    then (refused unknown_layer, rows)
    else elim tenant [
      | none ↦ (refused no_tenant, rows)
      | some t ↦
          if any (open_for t name) rows
          then (refused under_way, rows)
          else (let row = new_request t id now name actor in (queued row, rows ++ row ∷ []))
    ]

abbrev pub has_head : Request → Bool
has_head r = not (str_eq r.new_head "")

-- a rewrite of the request is recorded, and so may be pushed
abbrev pub recorded : Request → Bool
recorded r = r.pushed || has_head r

-- _DUE
unfoldable pub due : Session → ℕ → List Request → Request → Bool
due c now rows r =
    (is_open r.status && leb r.next_attempt_at now)
    && (r.pushed
        || (has_head r
            || not (
                any
                  (λ other.
                    visible c other.tenant_id
                    && ((other.tenant_id == r.tenant_id)
                        && (recorded other && is_open other.status)))
                  rows)))

unfoldable pub pending : Session → ℕ → List Request → Bool
unfolding due
pending c now rows = any (λ r. visible c r.tenant_id && due c now rows r) rows

-- left running by a writer that stopped in every attempt, with no rewrite recorded
abbrev pub exhausted : Request → Bool
exhausted r =
    (is_running r.status && not r.pushed) && (str_eq r.new_head "" && leb max_attempts r.attempts)

unfoldable pub given_up : ℕ → Request → Request
given_up now r = record r {
  status = abandoned;
  finished_at = some now;
  error = if str_eq r.error "" then "the writer stopped during every attempt" else r.error;
  names = [];
}

-- least(cap, base * power(2, least(attempts, 16)))
unfoldable pub backoff_s : ℕ → ℕ
backoff_s attempts = min backoff_cap_s (backoff_base_s * 2 ^ min attempts 16)

unfoldable pub started : ℕ → Request → Request
unfolding backoff_s
started now r = record r {
  status = running;
  attempts = r.attempts + 1;
  started_at = some (coalesce r.started_at now);
  error = "";
  next_attempt_at = now + seconds (backoff_s r.attempts);
}

abbrev pub has_id : ℕ → Request → Bool
has_id i r = r.id == i

abbrev pub update : Session → (Request → Bool) → (Request → Request) → List Request → List Request
update c p f rows = update_rows (λ r. visible c r.tenant_id && p r) f rows

abbrev pub older : Request → Request → Bool
older a b = ltb a.requested_at b.requested_at

abbrev pub first : List Request → Option Request
first [] = none
first (r ∷ rs) = some r

-- the oldest due request, among the rows after the exhausted ones were given up
unfoldable pub oldest_due : Session → ℕ → (ℕ → Bool) → List Request → Option Request
unfolding due
oldest_due c now locked rows = first (
    sort_by older
      (keep (λ r. visible c r.tenant_id && (due c now rows r && not (locked r.id))) rows))

unfoldable pub give_up : Session → ℕ → List Request → List Request
unfolding given_up
give_up c now rows = update c exhausted (given_up now) rows

unfoldable pub claim : Session → ℕ → (ℕ → Bool) → List Request → Option Request × List Request
unfolding give_up oldest_due started
claim c now locked rows =
    let left = give_up c now rows in
    elim (oldest_due c now locked left) [
      | none ↦ (none, left)
      | some r ↦ (some (started now r), update c (has_id r.id) (started now) left)
    ]

unfoldable pub record_names : Session → ℕ → List String → List Request → List Request
record_names c i names = update c (has_id i) (λ r. record r { names = names })

unfoldable pub record_rewrite : Session → ℕ → String → String → Fields → List Request → List Request
record_rewrite c i old_head new_head rewrite =
    update c (has_id i)
      (λ r. record r { old_head = old_head; new_head = new_head; rewrite = rewrite })

unfoldable pub clear_garbage : Session → ℕ → List Request → List Request
clear_garbage c i = update c (has_id i) (λ r. record r { garbage = [] })

unfoldable pub mark_pushed : Session → ℕ → List Request → List Request
mark_pushed c i = update c (has_id i) (λ r. record r { pushed = true })

unfoldable pub finish : Session → ℕ → ℕ → Fields → List Request → List Request
finish c now i receipt = update c (has_id i) (λ r. record r {
  status = succeeded;
  finished_at = some now;
  receipt = receipt;
  rewrite = end;
  names = [];
})

unfoldable pub failed_row : ℕ → Bool → String → Request → Request
failed_row now true error r = record r {
  status = abandoned;
  error = error;
  finished_at = some now;
  names = [];
  rewrite = end;
  new_head = "";
  garbage = [];
}
failed_row now false error r = record r { status = waiting; error = error }

-- `error` is already cut to 500 characters
unfoldable pub fail : Session → ℕ → ℕ → String → Bool → List Request → List Request
unfolding failed_row
fail c now i error final = update c (has_id i) (failed_row now final error)

-- `_may_be_pushed`: `reached` is what the look at the remote says, `none` when it raised
unfoldable pub may_be_pushed : Option Bool → Request → Bool
may_be_pushed reached r =
    if r.pushed
    then true
    else if str_eq r.new_head ""
    then false
    else elim reached [ none ↦ true | some b ↦ b ]

abbrev newer : Request → Request → Bool
newer a b = ltb b.requested_at a.requested_at

-- ORDER BY requested_at DESC LIMIT 1
unfoldable pub latest : Session → String → List Request → Option Request
latest c layer rows =
    first (sort_by newer (keep (λ r. visible c r.tenant_id && str_eq r.layer layer) rows))

-- the `except` branch of `run_claimed`, for the claimed item's id, layer and attempts; without a
-- latest request the look at it raises, and nothing is recorded
unfoldable pub settle_failure :
    Session → ℕ → ℕ → String → ℕ → Option Bool → String → List Request → List Request
unfolding may_be_pushed fail
settle_failure c now i layer attempts reached error rows = elim (latest c layer rows) [
  | none ↦ if leb max_attempts attempts then rows else fail c now i error false rows
  | some r ↦ fail c now i error (leb max_attempts attempts && not (may_be_pushed reached r)) rows
]
