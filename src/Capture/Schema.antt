-- ===== src/Capture/Schema.antt =====
-- src/stigmergy/capture/schema.py: the tables `capture_queue`, `tenants` and `layer_erasures`, as
-- far as the queue reads them. Times are microseconds; a UUID is a number.
use stigmergy.Prelude.{ℕ, ◌*◌, String, Bool, true, false, Option, none, some, List, Text}
use stigmergy.Capture.Json.{Fields}

pub data Status : Type 0 where
  queued processing landed failed : Status

pub data Operation : Type 0 where
  capture delete entity garden : Operation

pub data LayerDecision : Type 0 where
  explicit channel default classified : LayerDecision

-- one row of capture_queue
pub record Item : Type 0 where
  pub id : ℕ
  pub tenant_id : ℕ
  pub operation : Operation
  pub idempotency_key : String
  pub submitted_by : String
  pub actor : Fields
  pub acl : Option (List String)
  pub layer_decision : Option LayerDecision
  pub layer_probabilities : Option Fields
  pub request : Fields
  pub status : Status
  pub attempts : ℕ
  pub next_attempt_at : ℕ
  pub created_at : ℕ
  pub processing_started_at : Option ℕ
  pub budget_deadline_at : Option ℕ
  pub lease_started_at : Option ℕ
  pub finished_at : Option ℕ
  pub source_path : String
  pub commit_sha : String
  pub change_id : Option ℕ
  pub extraction : Fields
  pub report : Fields
  pub error_category : Text
  pub error : Text

pub record Tenant : Type 0 where
  pub id : ℕ
  pub active : Bool
  pub last_claimed_at : Option ℕ

-- the statuses of layer_erasures: 'queued', 'running', 'succeeded' and 'failed'
pub data ErasureStatus : Type 0 where
  waiting running succeeded abandoned : ErasureStatus

-- ERASURE_OPEN
abbrev pub is_open : ErasureStatus → Bool
is_open waiting = true
is_open running = true
is_open succeeded = false
is_open abandoned = false

pub record ClosedLayer : Type 0 where
  pub tenant_id : ℕ
  pub layer : String
  pub status : ErasureStatus

pub record Db : Type 0 where
  pub items : List Item
  pub tenants : List Tenant
  pub erasures : List ClosedLayer
  pub wakes : ℕ  -- calls of wake.writer()

abbrev pub is_queued : Status → Bool
is_queued queued = true
is_queued _ = false

abbrev pub is_processing : Status → Bool
is_processing processing = true
is_processing _ = false

abbrev pub is_failed : Status → Bool
is_failed failed = true
is_failed _ = false

abbrev pub operation_eq : Operation → Operation → Bool
operation_eq capture capture = true
operation_eq delete delete = true
operation_eq entity entity = true
operation_eq garden garden = true
operation_eq _ _ = false

-- make_interval(secs => n)
abbrev pub seconds : ℕ → ℕ
seconds n = n * 1_000_000

-- COALESCE(o, d)
abbrev pub coalesce : Option ℕ → ℕ → ℕ
coalesce none d = d
coalesce (some n) d = n
