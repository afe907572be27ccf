-- ===== src/Capture/Queue/Settle.antt =====
-- src/stigmergy/capture/queue.py: what the owner of a claim does with it (`finish_landed`,
-- `fail_or_retry`, `release_claim`, `holds_lease`), an administrator's `retry_failed`, and the reads.
use stigmergy.Prelude.{
  ℕ, suc, ◌+◌, ◌-◌, String, Bool, true, false, ◌&&◌, Option, none, some, List, [], ◌∷◌, ltb, leb,
  ◌==◌, if◌then◌else◌, is_some, take, Text, codes, one_line,
}
use stigmergy.Kernel.Tenancy.{Session, visible}
use stigmergy.Capture.Json.{Fields}
use stigmergy.Capture.Schema.{
  Status, queued, landed, failed, Item, Db, is_queued, is_processing, is_failed, seconds,
}
use stigmergy.Capture.Queue.Base.{
  Error, not_failed, missing, redelivered, not_owned, Result, ok, err, default_max_attempts,
  retry_delay_s, max_safe_error_chars, update, select, has_id,
}

-- the fence: the row is still being processed under the claim that the caller holds
abbrev pub owned : ℕ → ℕ → ℕ → Item → Bool
owned i attempts lease r =
    has_id i r
    && (is_processing r.status
        && ((r.attempts == attempts)
            && elim r.lease_started_at [ none ↦ false | some t ↦ t == lease ]))

unfoldable pub holds_lease : Session → ℕ → ℕ → ℕ → Db → Bool
holds_lease c i attempts lease db = is_some (select c (owned i attempts lease) db)

abbrev pub lost_error : Option Item → Error
lost_error none = missing
lost_error (some r) = if is_processing r.status then redelivered else not_owned r.status

-- _raise_lost_lease
unfoldable pub lost_lease : Session → ℕ → Db → Error
lost_lease c i db = lost_error (select c (has_id i) db)

-- UPDATE ... WHERE (the fence) RETURNING, and the error when no row came back
unfoldable pub settle : Session → ℕ → ℕ → ℕ → (Item → Item) → Db → Result Item × Db
unfolding lost_lease
settle c i attempts lease f db = elim (select c (owned i attempts lease) db) [
  | none ↦ (err (lost_lease c i db), db)
  | some r ↦ (ok (f r), update c (owned i attempts lease) f db)
]

pub record Landing : Type 0 where
  pub source_path : String
  pub commit_sha : String
  pub change_id : Option ℕ
  pub extraction : Fields
  pub report : Fields

unfoldable pub landed_row : ℕ → Landing → Item → Item
landed_row now w r = record r {
  status = landed;
  lease_started_at = none;
  finished_at = some now;
  source_path = w.source_path;
  commit_sha = w.commit_sha;
  change_id = w.change_id;
  extraction = w.extraction;
  report = w.report;
  error_category = [];
  error = [];
}

unfoldable pub finish_landed : Session → ℕ → ℕ → ℕ → ℕ → Landing → Db → Result Item × Db
unfolding settle landed_row
finish_landed c now i attempts lease w = settle c i attempts lease (landed_row now w)

-- _safe
unfoldable pub safe : Text → ℕ → Text
unfolding one_line
safe value limit = take limit (one_line value)

abbrev or_else : Text → Text → Text
or_else [] d = d
or_else (x ∷ xs) d = x ∷ xs

pub record Failure : Type 0 where
  pub category : Text
  pub error : Text
  pub retryable : Bool
  pub fresh_budget : Bool

unfoldable pub failed_row : ℕ → Bool → Failure → Item → Item
unfolding safe
failed_row now retry w r = record r {
  status = if retry then queued else failed;
  lease_started_at = none;
  next_attempt_at = if retry then now + seconds retry_delay_s else r.next_attempt_at;
  finished_at = if retry then none else some now;
  budget_deadline_at = if retry && w.fresh_budget then none else r.budget_deadline_at;
  error_category = or_else (safe w.category 100) (codes "processing_failed");
  error = or_else (safe w.error max_safe_error_chars) (codes "processing failed");
}

unfoldable pub fail_or_retry : Session → ℕ → ℕ → ℕ → ℕ → Failure → Db → Result Item × Db
unfolding settle failed_row
fail_or_retry c now i attempts lease w =
    let retry = w.retryable && ltb attempts default_max_attempts in
    settle c i attempts lease (failed_row now retry w)

abbrev pub leased : ℕ → ℕ → Item → Bool
leased i lease r =
    has_id i r
    && (is_processing r.status && elim r.lease_started_at [ none ↦ false | some t ↦ t == lease ])

unfoldable pub released_row : ℕ → Item → Item
released_row now r = record r {
  status = queued;
  attempts = r.attempts - 1;
  next_attempt_at = now;
  processing_started_at = none;
  budget_deadline_at = none;
  lease_started_at = none;
}

unfoldable pub release_claim : Session → ℕ → ℕ → ℕ → Db → Bool × Db
unfolding released_row
release_claim c now i lease db =
    (is_some (select c (leased i lease) db), update c (leased i lease) (released_row now) db)

unfoldable pub retried_row : ℕ → Item → Item
retried_row now r = record r {
  status = queued;
  attempts = 0;
  next_attempt_at = now;
  processing_started_at = none;
  budget_deadline_at = none;
  lease_started_at = none;
  finished_at = none;
  error_category = [];
  error = [];
}

abbrev pub retriable : ℕ → Item → Bool
retriable i r = has_id i r && is_failed r.status

unfoldable pub retry_failed : Session → ℕ → ℕ → Db → Result Item × Db
unfolding retried_row
retry_failed c now i db = elim (select c (retriable i) db) [
  | none ↦ (err not_failed, db)
  | some r ↦ (
    ok (retried_row now r),
    record (update c (retriable i) (retried_row now) db) { wakes = suc db.wakes },
  )
]

unfoldable pub current_status : Session → ℕ → Db → Option Status
current_status c i db = elim (select c (has_id i) db) [ none ↦ none | some r ↦ some r.status ]

unfoldable pub work_waiting : Session → ℕ → Db → Bool
work_waiting c now db = is_some (select c (λ r. is_queued r.status && leb r.next_attempt_at now) db)

pub record Counts : Type 0 where
  pub queued : ℕ
  pub processing : ℕ
  pub landed : ℕ
  pub failed : ℕ

abbrev count_rows : (Item → Bool) → List Item → ℕ
count_rows p [] = 0
count_rows p (r ∷ rs) = (if p r then 1 else 0) + count_rows p rs

abbrev is_landed : Status → Bool
is_landed landed = true
is_landed _ = false

unfoldable pub counts_by_status : Session → Db → Counts
counts_by_status c db = record {
  queued = count_rows (λ r. visible c r.tenant_id && is_queued r.status) db.items;
  processing = count_rows (λ r. visible c r.tenant_id && is_processing r.status) db.items;
  landed = count_rows (λ r. visible c r.tenant_id && is_landed r.status) db.items;
  failed = count_rows (λ r. visible c r.tenant_id && is_failed r.status) db.items;
}
