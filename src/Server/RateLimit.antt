-- ===== src/Server/RateLimit.antt =====
-- src/stigmergy/server/ratelimit.py: the token buckets and `RateLimiter.check`.
-- Time is in ticks, `minute` of them to a minute, and tokens are in parts, `minute` of them to a
-- token: the refill `elapsed * (capacity / 60.0)` is then the whole number `elapsed * capacity`.
pub mod Visits
pub mod Outcomes
pub mod Bound
use stigmergy.Prelude.{
  ℕ, ◌+◌, ◌-◌, ◌*◌, ◌≡◌, refl, String, Bool, true, false, Option, none, some, List, [], ◌∷◌, min,
  leb, if◌then◌else◌,
}
use stigmergy.Prelude.Dict
use stigmergy.Prelude.Dict.{Dict}

abbrev pub minute : ℕ
minute = 60_000_000

pub record Bucket : Type 0 where
  pub capacity : ℕ
  pub tokens : ℕ
  pub last : ℕ

abbrev pub new_bucket : ℕ → ℕ → Bucket
new_bucket capacity now = record { capacity = capacity; tokens = capacity * minute; last = now }

-- what `available` does to the bucket
unfoldable pub refill : ℕ → Bucket → Bucket
refill now b = record b {
  tokens = min (b.capacity * minute) (b.tokens + (now - b.last) * b.capacity);
  last = now;
}

-- what `available` returns, of the refilled bucket
abbrev pub has_token : Bucket → Bool
has_token b = leb minute b.tokens

unfoldable pub consume : Bucket → Bucket
consume b = record b { tokens = b.tokens - minute }

-- the tools with a budget of their own; brain_submit and brain_upload_finalize share one
pub data Tool : Type 0 where
  ask brain_delete brain_submit brain_upload_finalize other : Tool

pub data Budget : Type 0 where
  answers deletions captures : Budget

abbrev pub budget_of : Tool → Option Budget
budget_of ask = some answers
budget_of brain_delete = some deletions
budget_of brain_submit = some captures
budget_of brain_upload_finalize = some captures
budget_of other = none

pub record Limiter : Type 0 where
  pub overall_per_min : ℕ
  pub ask_per_min : ℕ
  pub delete_per_min : ℕ
  pub capture_per_min : ℕ
  pub overall : Dict Bucket
  pub asks : Dict Bucket
  pub deletes : Dict Bucket
  pub submits : Dict Bucket

abbrev pub per_min : Budget → Limiter → ℕ
per_min answers l = l.ask_per_min
per_min deletions l = l.delete_per_min
per_min captures l = l.capture_per_min

abbrev pub table : Budget → Limiter → Dict Bucket
table answers l = l.asks
table deletions l = l.deletes
table captures l = l.submits

abbrev pub with_table : Budget → Dict Bucket → Limiter → Limiter
with_table answers d l = record l { asks = d }
with_table deletions d l = record l { deletes = d }
with_table captures d l = record l { submits = d }

pub data Verdict : Type 0 where
  admitted overall_exceeded tool_exceeded : Verdict

-- `_bucket`
unfoldable pub bucket : Dict Bucket → String → ℕ → ℕ → Bucket
bucket d identity capacity now = elim (Dict.get identity d) [
  | none ↦ new_bucket capacity now
  | some b ↦ b
]

abbrev pub store_overall : String → Bucket → Limiter → Limiter
store_overall identity b l = record l { overall = Dict.put identity b l.overall }

abbrev pub store_tool : Budget → String → Bucket → Limiter → Limiter
store_tool k identity b l = with_table k (Dict.put identity b (table k l)) l

-- the tool's bucket, after the overall one `o` was refilled
unfoldable pub check_tool : Budget → String → ℕ → Bucket → Limiter → Verdict × Limiter
unfolding refill consume bucket
check_tool k identity now o l =
    let e = bucket (table k l) identity (per_min k l) now in
    if has_token o
    then (let e' = refill now e in
        if has_token e'
        then (admitted, store_tool k identity (consume e') (store_overall identity (consume o) l))
        else (tool_exceeded, store_tool k identity e' (store_overall identity o l)))
    else (overall_exceeded, store_tool k identity e (store_overall identity o l))

unfoldable pub check_overall : String → ℕ → Bucket → Limiter → Verdict × Limiter
unfolding consume
check_overall identity now o l =
    if has_token o
    then (admitted, store_overall identity (consume o) l)
    else (overall_exceeded, store_overall identity o l)

-- `_check`: an exceeded limit is raised before any token is spent.
unfoldable pub check : String → Tool → ℕ → Limiter → Verdict × Limiter
unfolding check_tool check_overall
check identity tool now l =
    let o = refill now (bucket l.overall identity l.overall_per_min now) in
    elim (budget_of tool) [
      | none ↦ check_overall identity now o l
      | some k ↦ check_tool k identity now o l
    ]
