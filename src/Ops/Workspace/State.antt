-- ===== src/Ops/Workspace/State.antt =====
-- src/stigmergy/ops/erase_workspace.py: the requests, how they are asked for, claimed and ended, and
-- what is around them. `_tenant_refs` and `is_live` (capture/references.py) read rows of many tables:
-- a row here is its tenant, the objects it points at and the objects that it keeps alive. Requests
-- are rows of the platform, which every session sees.
use Prim.Native.Nat.{◌^◌}
use stigmergy.Prelude.{
  ℕ, suc, ◌+◌, ◌*◌, String, Bool, true, false, ◌&&◌, ◌||◌, not, Option, none, some, List, [], ◌∷◌,
  ◌++◌, ltb, leb, ◌==◌, str_eq, if◌then◌else◌, any, find, keep, update_rows, sort_by, min, take,
  codes, strip, text_eq, Text,
}
use stigmergy.Prelude.Dict.{Dict}
use stigmergy.Capture.Schema.{
  ErasureStatus, waiting, running, succeeded, abandoned, is_open, seconds, coalesce,
}

abbrev pub max_attempts : ℕ
max_attempts = 8

abbrev pub backoff_base_s : ℕ
backoff_base_s = 60

abbrev pub backoff_cap_s : ℕ
backoff_cap_s = 3600

pub data WorkspaceStatus : Type 0 where
  provisioning active suspended : WorkspaceStatus

-- one row of tenants
pub record Workspace : Type 0 where
  pub id : ℕ
  pub slug : String
  pub name : String
  pub status : WorkspaceStatus
  pub repo : String
  pub slack_team : Option String

pub record Row : Type 0 where
  pub tenant_id : ℕ
  pub refs : List String
  pub needs : List String

-- a table under the row policy
pub record Table : Type 0 where
  pub name : String
  pub rows : List Row

-- what a run has done; a key that is missing from the dict has the value that `get` falls back on
pub record Receipt : Type 0 where
  pub repository : Option String
  pub rows : Dict ℕ
  pub indexes_dropped : ℕ
  pub evidence_deleted : ℕ
  pub checkout_removed : Bool

abbrev pub empty_receipt : Receipt
empty_receipt = record {
  repository = none;
  rows = [];
  indexes_dropped = 0;
  evidence_deleted = 0;
  checkout_removed = false;
}

-- one row of workspace_erasures; `garbage` is a set of references
pub record Deletion : Type 0 where
  pub id : ℕ
  pub workspace_id : ℕ
  pub slug : String
  pub name : String
  pub repo : String
  pub requested_by : String
  pub requested_at : ℕ
  pub status : ErasureStatus
  pub attempts : ℕ
  pub next_attempt_at : ℕ
  pub started_at : Option ℕ
  pub finished_at : Option ℕ
  pub repo_deleted : Bool
  pub rows_deleted : Bool
  pub garbage : List String
  pub receipt : Receipt
  pub error : Text

pub record World : Type 0 where
  pub requests : List Deletion
  pub workspaces : List Workspace
  pub tables : List Table
  pub foreign_keys : List (String × String)  -- a table and the table it references
  pub acting : List (Option ℕ)  -- platform_sessions.acting_tenant_id
  pub objects : List String  -- the evidence store
  pub removed : List String  -- the repositories whose removal GitHub confirmed
  pub wakes : ℕ

-- WorkspaceErasureRefused with its message, or any other exception with its class and message
pub data Error : Type 0 where
  refused : Text → Error
  raised : Text → Text → Error

pub data Result (A : Type 0) : Type 0 where
  ok : A → Result A
  err : Error → Result A

abbrev is_suspended : WorkspaceStatus → Bool
is_suspended suspended = true
is_suspended _ = false

abbrev pub owns_slack : Option String → Bool
owns_slack none = false
owns_slack (some team) = not (str_eq team "")

abbrev pub workspace_is : ℕ → Workspace → Bool
workspace_is i w = w.id == i

-- `_ineligible`
unfoldable pub ineligible : ℕ → World → Option Text
ineligible i w = elim (find (workspace_is i) w.workspaces) [
  | none ↦ none
  | some t ↦
      if not (is_suspended t.status)
      then some (codes "the workspace is no longer suspended; nothing was deleted")
      else if owns_slack t.slack_team
      then some (codes "the workspace owns the deployment's Slack app; nothing was deleted")
      else none
]

abbrev pub is_open_for : ℕ → Deletion → Bool
is_open_for i r = (r.workspace_id == i) && is_open r.status

unfoldable pub new_deletion : ℕ → ℕ → Workspace → String → Deletion
new_deletion id now t actor = record {
  id = id;
  workspace_id = t.id;
  slug = t.slug;
  name = t.name;
  repo = t.repo;
  requested_by = actor;
  requested_at = now;
  status = waiting;
  attempts = 0;
  next_attempt_at = now;
  started_at = none;
  finished_at = none;
  repo_deleted = false;
  rows_deleted = false;
  garbage = [];
  receipt = empty_receipt;
  error = [];
}

-- `request`: `t` is the workspace as the console loaded it; at most one request of a workspace is
-- open, by the index workspace_erasures_one_open
unfoldable pub request : Workspace → Text → String → ℕ → ℕ → World → Result Deletion × World
unfolding ineligible new_deletion strip text_eq
request t confirm actor id now w =
    if owns_slack t.slack_team
    then (
      err (
          refused (
            codes
              "this workspace owns the deployment's Slack app and cannot be deleted from the console")),
      w,
    )
    else if not (text_eq (strip confirm) (codes t.slug))
    then (err (refused (codes "type the workspace's slug exactly to confirm")), w)
    else elim (ineligible t.id w) [
      | some reason ↦ (err (refused (codes "suspend the workspace before deleting it")), w)
      | none ↦
          if any (is_open_for t.id) w.requests
          then (err (refused (codes "this workspace is already being deleted")), w)
          else (let row = new_deletion id now t actor in
              (ok row, record w { requests = w.requests ++ row ∷ []; wakes = suc w.wakes }))
    ]

abbrev pub is_due : ℕ → Deletion → Bool
is_due now r = is_open r.status && leb r.next_attempt_at now

-- `pending`
unfoldable pub pending : ℕ → World → Bool
pending now w = any (is_due now) w.requests

-- least(cap, base * power(2, least(attempts, 16)))
unfoldable pub backoff_s : ℕ → ℕ
backoff_s attempts = min backoff_cap_s (backoff_base_s * 2 ^ min attempts 16)

unfoldable pub begun : ℕ → Deletion → Deletion
unfolding backoff_s
begun now r = record r {
  status = running;
  attempts = r.attempts + 1;
  started_at = some (coalesce r.started_at now);
  next_attempt_at = now + seconds (backoff_s r.attempts);
}

abbrev pub has_id : ℕ → Deletion → Bool
has_id i r = r.id == i

-- UPDATE workspace_erasures SET ... WHERE id = %s, `_record` too
abbrev pub set_request : ℕ → (Deletion → Deletion) → World → World
set_request i f w = record w { requests = update_rows (has_id i) f w.requests }

abbrev pub older : Deletion → Deletion → Bool
older a b = ltb a.requested_at b.requested_at

abbrev pub first {ℓ} : {A : Type ℓ} → List A → Option A
first [] = none
first (x ∷ xs) = some x

-- `claim`: `locked` tells the rows that other transactions hold
unfoldable pub claim : ℕ → (ℕ → Bool) → World → Option Deletion × World
unfolding begun
claim now locked w =
    elim (first (sort_by older (keep (λ r. is_due now r && not (locked r.id)) w.requests))) [
      | none ↦ (none, w)
      | some r ↦ (some (begun now r), set_request r.id (begun now) w)
    ]

-- `finish`
unfoldable pub finish : ℕ → ℕ → Receipt → World → World
finish now i receipt =
    set_request i
      (λ r. record r { status = succeeded; finished_at = some now; receipt = receipt; error = [] })

abbrev pub reason_of : Error → Text
reason_of (refused message) = message
reason_of (raised name message) = name ++ (codes ": " ++ take 300 message)

abbrev is_refusal : Error → Bool
is_refusal (refused message) = true
is_refusal (raised name message) = false

-- the status that `fail` sets, for a request that was claimed with `attempts`
abbrev pub status_after : Bool → ℕ → Error → ErasureStatus
status_after repo_gone attempts e =
    if repo_gone
    then waiting
    else if is_refusal e || leb max_attempts attempts
    then abandoned
    else waiting

unfoldable pub ended : ℕ → ErasureStatus → Error → Deletion → Deletion
ended now abandoned e r = record r {
  status = abandoned;
  error = reason_of e;
  finished_at = some now;
}
ended now status e r = record r { status = status; error = reason_of e }

-- `fail`, for the claimed request `item`; a request that is gone makes fetchone()[0] raise, and
-- nothing is recorded
unfoldable pub fail : ℕ → Deletion → Error → World → World
unfolding ended
fail now item e w = elim (find (has_id item.id) w.requests) [
  | none ↦ w
  | some r ↦ set_request item.id (ended now (status_after r.repo_deleted item.attempts e) e) w
]
