-- ===== src/Capture/Queue/Submit.antt =====
-- src/stigmergy/capture/queue.py: `_enqueue`, `_find_idempotent`, `_equivalent_request`,
-- `layer_closed` and `record_extraction`.
use stigmergy.Prelude.{
  ℕ, suc, String, Bool, true, false, ◌&&◌, ◌||◌, not, Option, none, some, List, [], ◌∷◌, ◌++◌, ◌==◌,
  str_eq, if◌then◌else◌, any,
}
use stigmergy.Kernel.Tenancy.{Session, visible}
use stigmergy.Capture.Json.{Fields, get, pop, put, dict_eq, obj, end}
use stigmergy.Capture.Schema.{queued, Operation, LayerDecision, Item, Db, is_open, operation_eq}
use stigmergy.Capture.Queue.Base.{
  no_tenant, duplicate_id, lookup_failed, key_reused, Result, ok, err, update, select, has_id,
}

-- a request's origin; a missing one is empty
abbrev pub origin_of : Fields → Fields
origin_of request = elim (get "origin" request) [ some (obj fs) ↦ fs | _ ↦ end ]

-- An origin of nothing but its capture time is left as it stands.
abbrev pub with_origin : Fields → Fields → Fields
with_origin end request = request
with_origin fs request = put "origin" (obj fs) request

-- `semantic` of _equivalent_request
unfoldable pub semantic : Fields → Fields
semantic request =
    let normalized = pop "idempotency_key" (pop "operation_id" (pop "capture_id" request)) in
    with_origin (pop "captured_at" (origin_of normalized)) normalized

unfoldable pub equivalent_request : Fields → Fields → Bool
unfolding semantic dict_eq
equivalent_request left right = dict_eq (semantic left) (semantic right)

abbrev pub has_key : String → String → Item → Bool
has_key subject key r = str_eq r.submitted_by subject && str_eq r.idempotency_key key

abbrev pub reused : Operation → Fields → Item → Bool
reused op request r =
    not (operation_eq r.operation op) || not (equivalent_request r.request request)

unfoldable pub find_idempotent :
    Session → Operation → String → String → Fields → Bool → Db → Result (Option Item)
find_idempotent c op subject key request required db = elim (select c (has_key subject key) db) [
  | none ↦ if required then err lookup_failed else ok none
  | some r ↦ if reused op request r then err key_reused else ok (some r)
]

-- what a submission brings to `_enqueue`
pub record Submission : Type 0 where
  pub operation : Operation
  pub item_id : ℕ
  pub idempotency_key : String
  pub subject : String
  pub actor : Fields
  pub acl : Option (List String)
  pub request : Fields
  pub layer_decision : Option LayerDecision
  pub layer_probabilities : Option Fields

unfoldable pub fresh_item : ℕ → ℕ → Submission → Item
fresh_item tenant now s = record {
  id = s.item_id;
  tenant_id = tenant;
  operation = s.operation;
  idempotency_key = s.idempotency_key;
  submitted_by = s.subject;
  actor = s.actor;
  acl = s.acl;
  layer_decision = s.layer_decision;
  layer_probabilities = s.layer_probabilities;
  request = s.request;
  status = queued;
  attempts = 0;
  next_attempt_at = now;
  created_at = now;
  processing_started_at = none;
  budget_deadline_at = none;
  lease_started_at = none;
  finished_at = none;
  source_path = "";
  commit_sha = "";
  change_id = none;
  extraction = end;
  report = end;
  error_category = [];
  error = [];
}

-- the row that the unique key (tenant_id, submitted_by, idempotency_key) conflicts with
abbrev pub conflicts : ℕ → Submission → Item → Bool
conflicts tenant s r = (r.tenant_id == tenant) && has_key s.subject s.idempotency_key r

abbrev pub existing : Result (Option Item) → Result (Item × Bool)
existing (ok (some r)) = ok (r, false)
existing (ok none) = err lookup_failed
existing (err e) = err e

-- The second component of a success is the `created` flag.
unfoldable pub enqueue_for : ℕ → Session → ℕ → Submission → Db → Result (Item × Bool) × Db
unfolding find_idempotent fresh_item
enqueue_for tenant c now s db =
    if any (conflicts tenant s) db.items
    then (
      existing (find_idempotent c s.operation s.subject s.idempotency_key s.request true db),
      db,
    )
    else if any (λ r. r.id == s.item_id) db.items
    then (err duplicate_id, db)
    else (let row = fresh_item tenant now s in
        (ok (row, true), record db { items = db.items ++ row ∷ []; wakes = suc db.wakes }))

-- `tenant_id` defaults to the session's tenant and is NOT NULL.
unfoldable pub enqueue : Session → ℕ → Submission → Db → Result (Item × Bool) × Db
unfolding enqueue_for
enqueue c now s db = elim c.tenant [
  | none ↦ (err no_tenant, db)
  | some t ↦ enqueue_for t c now s db
]

unfoldable pub layer_closed : Session → String → Db → Bool
layer_closed c layer db =
    any (λ e. visible c e.tenant_id && (str_eq e.layer layer && is_open e.status)) db.erasures

unfoldable pub record_extraction : Session → ℕ → Fields → Db → Db
record_extraction c i extraction = update c (has_id i) (λ r. record r { extraction = extraction })
