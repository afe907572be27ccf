-- ===== src/Capture/Queue/Base.antt =====
-- src/stigmergy/capture/queue.py: the errors, the limits, and UPDATE and SELECT as a session sees
-- the rows. The queue's operations are functions on the tables: `c` is the connection's session, so
-- row-level security is part of every statement; `now` is the transaction's time and `clock` is
-- clock_timestamp(); `locked` tells the rows that other transactions hold (SKIP LOCKED). An error
-- leaves the tables as they are.
use stigmergy.Prelude.{ℕ, Bool, ◌&&◌, Option, ◌==◌, find, update_rows}
use stigmergy.Kernel.Tenancy.{Session, visible}
use stigmergy.Capture.Schema.{Status, Item, Db}

pub data Error : Type 0 where
  no_tenant duplicate_id lookup_failed key_reused not_failed missing redelivered : Error
  not_owned : Status → Error

pub data Result {ℓ} (A : Type ℓ) : Type ℓ where
  ok : A → Result A
  err : Error → Result A

abbrev pub default_max_attempts : ℕ
default_max_attempts = 2

abbrev pub retry_delay_s : ℕ
retry_delay_s = 10

abbrev pub max_safe_error_chars : ℕ
max_safe_error_chars = 1000

module _ (c : Session) where
  -- UPDATE touches only rows that the session sees.
  abbrev pub update : (Item → Bool) → (Item → Item) → Db → Db
  update p f db = record db { items = update_rows (λ r. visible c r.tenant_id && p r) f db.items }

  abbrev pub select : (Item → Bool) → Db → Option Item
  select p db = find (λ r. visible c r.tenant_id && p r) db.items

abbrev pub has_id : ℕ → Item → Bool
has_id i r = r.id == i
