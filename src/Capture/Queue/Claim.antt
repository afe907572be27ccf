-- ===== src/Capture/Queue/Claim.antt =====
-- src/stigmergy/capture/queue.py: `claim_next` (_PICK and _CLAIM) and `release_expired`.
use stigmergy.Prelude.{
  ℕ, ◌+◌, String, Bool, true, false, ◌&&◌, ◌||◌, not, Option, none, some, List, [], ◌∷◌, ltb, leb,
  ◌==◌, str_eq, length, take, find, keep, any, update_rows, sort_by, codes, max,
}
use stigmergy.Kernel.Tenancy.{Session, visible}
use stigmergy.Capture.Schema.{
  queued, processing, failed, Item, Tenant, Db, is_open, is_queued, is_processing, seconds,
  coalesce,
}
use stigmergy.Capture.Queue.Base.{default_max_attempts, update, has_id}

abbrev pub opt_before : Option ℕ → Option ℕ → Bool
opt_before none none = false
opt_before none (some b) = true
opt_before (some a) none = false
opt_before (some a) (some b) = ltb a b

abbrev pub tenant_of : ℕ → Db → Option Tenant
tenant_of t db = find (λ w. w.id == t) db.tenants

abbrev pub served_at : Db → Item → Option ℕ
served_at db r = elim (tenant_of r.tenant_id db) [ none ↦ none | some w ↦ w.last_claimed_at ]

-- ORDER BY tenant.last_claimed_at NULLS FIRST, queued.created_at, queued.id
abbrev pub picked_before : Db → Item → Item → Bool
picked_before db a b =
    opt_before (served_at db a) (served_at db b)
    || (not (opt_before (served_at db b) (served_at db a))
        && (ltb a.created_at b.created_at || (a.created_at == b.created_at && ltb a.id b.id)))

abbrev pub tenant_active : Db → Item → Bool
tenant_active db r = elim (tenant_of r.tenant_id db) [ none ↦ false | some w ↦ w.active ]

abbrev names_layer : Option (List String) → String → Bool
names_layer none layer = false
names_layer (some acl) layer = any (λ a. str_eq a layer) acl

-- EXISTS (SELECT 1 FROM layer_erasures ...)
abbrev pub being_erased : Session → Db → Item → Bool
being_erased c db r =
    any
      (λ e.
        visible c e.tenant_id
        && ((e.tenant_id == r.tenant_id) && (names_layer r.acl e.layer && is_open e.status)))
      db.erasures

-- a row that the claim may take: due, of an active tenant, not in a layer being erased
abbrev pub claimable : Session → ℕ → Db → Item → Bool
claimable c now db r =
    (visible c r.tenant_id && tenant_active db r)
    && ((is_queued r.status && leb r.next_attempt_at now) && not (being_erased c db r))

abbrev pub first : List Item → Option Item
first [] = none
first (r ∷ rs) = some r

unfoldable pub pick : Session → ℕ → (ℕ → Bool) → Db → Option Item
pick c now locked db =
    first
      (sort_by (picked_before db) (keep (λ r. claimable c now db r && not (locked r.id)) db.items))

unfoldable pub claimed : ℕ → ℕ → Item → Item
claimed clock budget r = record r {
  status = processing;
  processing_started_at = some (coalesce r.processing_started_at clock);
  budget_deadline_at = some (coalesce r.budget_deadline_at (clock + seconds budget));
  lease_started_at = some clock;
  attempts = r.attempts + 1;
  error_category = [];
  error = [];
}

unfoldable pub claim_picked : Session → ℕ → ℕ → Option Item → Db → Option Item × Db
unfolding claimed
claim_picked c clock budget none db = (none, db)
claim_picked c clock budget (some r) db = (
  some (claimed clock budget r),
  record (update c (has_id r.id) (claimed clock budget) db) {
    tenants =
        update_rows (λ w. w.id == r.tenant_id) (λ w. record w { last_claimed_at = some clock })
          db.tenants;
  },
)

unfoldable pub claim_next : Session → ℕ → ℕ → (ℕ → Bool) → ℕ → Db → Option Item × Db
unfolding claim_picked pick
claim_next c now clock locked budget db =
    claim_picked c clock (max 1 budget) (pick c now locked db) db

-- _LEASE_EXPIRED; a comparison with NULL is not true
abbrev pub lease_expired : ℕ → ℕ → Item → Bool
lease_expired now timeout r = elim r.lease_started_at [
  | none ↦ false
  | some t ↦ ltb (t + seconds timeout) now
]

abbrev opt_after : Option ℕ → Option ℕ → Bool
opt_after none b = false
opt_after (some a) none = true
opt_after (some a) (some b) = ltb a b

-- ORDER BY processing_started_at, id: NULL comes last
abbrev pub started_before : Item → Item → Bool
started_before a b =
    opt_after a.processing_started_at b.processing_started_at
    || (not (opt_after b.processing_started_at a.processing_started_at) && ltb a.id b.id)

unfoldable pub expired : Session → ℕ → ℕ → (ℕ → Bool) → ℕ → Db → List Item
expired c now timeout locked batch db = take (max 1 batch) (
    sort_by started_before (
      keep
        (λ r.
          visible c r.tenant_id
          && ((is_processing r.status && lease_expired now timeout r) && not (locked r.id)))
        db.items))

-- id = ANY(ids) AND status = 'processing'
abbrev pub in_rows : List Item → Item → Bool
in_rows rows r = any (λ w. w.id == r.id) rows && is_processing r.status

unfoldable pub requeued : ℕ → Item → Item
requeued now r = record r {
  status = queued;
  lease_started_at = none;
  next_attempt_at = now;
  error_category = codes "lease_expired";
  error = codes "processing lease expired; queued for commit reconciliation";
}

unfoldable pub failed_expired : ℕ → Item → Item
failed_expired now r = record r {
  status = failed;
  lease_started_at = none;
  finished_at = some now;
  error_category = codes "lease_expired";
  error = codes "processing lease expired";
}

-- The result counts the rows released and the rows failed.
unfoldable pub release_expired :
    Session → ℕ → ℕ → (ℕ → Bool) → ℕ → Db → record { released : ℕ; failed : ℕ } × Db
unfolding expired requeued failed_expired
release_expired c now timeout locked batch db =
    let rows = expired c now timeout locked batch db in
    let released = keep (λ r. leb r.attempts default_max_attempts) rows in
    let gone = keep (λ r. ltb default_max_attempts r.attempts) rows in
    (
      record { released = length released; failed = length gone },
      update c (in_rows gone) (failed_expired now) (update c (in_rows released) (requeued now) db),
    )
