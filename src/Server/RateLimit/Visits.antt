-- ===== src/Server/RateLimit/Visits.antt =====
-- What a visit does to the bucket of an identity, and the tokens that the identity has to spend.
use stigmergy.Prelude.{
  ℕ, ◌+◌, ◌-◌, ◌*◌, ◌≤◌, ◌≡◌, refl, Bool, true, false, Option, none, some, leb→le, arith,
}
use stigmergy.Server.RateLimit.{minute, Bucket, new_bucket, refill, has_token, consume}

-- The tokens that an identity can have spent by time `t`, if it spends none before.
abbrev pub credit_of : ℕ → ℕ → Option Bucket → ℕ
credit_of rate t none = rate * minute
credit_of rate t (some b) = b.tokens + (t - b.last) * rate

-- The bucket has the table's capacity and was last seen by time `t`.
abbrev pub Timely : ℕ → ℕ → Option Bucket → Type 0
Timely rate t none = Unit
Timely rate t (some b) = (b.capacity ≡ rate) × (b.last ≤ t)

abbrev pub bucket_of : ℕ → ℕ → Option Bucket → Bucket
bucket_of rate now none = new_bucket rate now
bucket_of rate now (some b) = b

-- One visit of a bucket: it is refilled, and a token is spent if the visit is admitted.
refill_credit :
    (rate t d : ℕ) (o : Option Bucket)
    → Timely rate t o
    → ((refill (t + d) (bucket_of rate (t + d) o)).tokens ≤ credit_of rate t o + d * rate)
unfolding refill
refill_credit rate t d none h = grind arith
refill_credit rate t d (some b) h =
    let later : t + d - b.last ≡ (t - b.last) + d = omega arith in
    let longer : (t + d - b.last) * rate ≡ (t - b.last) * rate + d * rate =
      rw later (omega arith) in
    rw h.0 (omega (arith, longer))

no_time : (rate t : ℕ) → (t - t) * rate ≡ 0
no_time rate t = let none_left : t - t ≡ 0 = omega arith in rw none_left (omega arith)

credit-refill :
    (rate t : ℕ) (b : Bucket) → credit_of rate t (some (refill t b)) ≡ (refill t b).tokens
unfolding refill
credit-refill rate t b = omega (arith, no_time rate t)

credit-consume :
    (rate t : ℕ) (b : Bucket)
    → credit_of rate t (some (consume (refill t b))) ≡ (refill t b).tokens - minute
unfolding refill consume
credit-consume rate t b = omega (arith, no_time rate t)

waited :
    (rate t d : ℕ) (o : Option Bucket)
    → Timely rate t o
    → credit_of rate (t + d) o ≤ credit_of rate t o + d * rate
waited rate t d none h = omega arith
waited rate t d (some b) h =
    let later : t + d - b.last ≡ (t - b.last) + d = omega arith in
    let longer : (t + d - b.last) * rate ≡ (t - b.last) * rate + d * rate =
      rw later (omega arith) in
    omega (arith, longer)

-- The four ways in which a check leaves the bucket of the identity that it is for.
pub data Visit (rate now : ℕ) (o : Option Bucket) : Bool → Option Bucket → Type 0 where
  spent :
      has_token (refill now (bucket_of rate now o)) ≡ true
      → Visit rate now o true (some (consume (refill now (bucket_of rate now o))))
  turned_away : Visit rate now o false (some (refill now (bucket_of rate now o)))
  unvisited : Visit rate now o false (some (bucket_of rate now o))
  untouched : Visit rate now o false o

abbrev pub cost : Bool → ℕ
cost true = minute
cost false = 0

pub Visit-Timely :
    (rate t d : ℕ) {o o' : Option Bucket} {b : Bool}
    → Timely rate t o
    → Visit rate (t + d) o b o'
    → Timely rate (t + d) o'
unfolding refill consume
Visit-Timely rate t d {o = none} h (spent e) = (refl, omega arith)
Visit-Timely rate t d {o = some b} h (spent e) = (h.0, omega arith)
Visit-Timely rate t d {o = none} h turned_away = (refl, omega arith)
Visit-Timely rate t d {o = some b} h turned_away = (h.0, omega arith)
Visit-Timely rate t d {o = none} h unvisited = (refl, omega arith)
Visit-Timely rate t d {o = some b} h unvisited = (h.0, omega arith)
Visit-Timely rate t d {o = none} h untouched = tt
Visit-Timely rate t d {o = some b} h untouched = (h.0, omega arith)

pub Visit-credit :
    (rate t d : ℕ) {o o' : Option Bucket} {b : Bool}
    → Timely rate t o
    → Visit rate (t + d) o b o'
    → credit_of rate (t + d) o' + cost b ≤ credit_of rate t o + d * rate
Visit-credit rate t d {o} h (spent e) =
    let now = bucket_of rate (t + d) o in
    omega (
      arith,
      refill_credit rate t d o h,
      leb→le minute (refill (t + d) now).tokens e,
      credit-consume rate (t + d) now,
    )
Visit-credit rate t d {o} h turned_away =
    omega (arith, refill_credit rate t d o h, credit-refill rate (t + d) (bucket_of rate (t + d) o))
Visit-credit rate t d {o = none} h unvisited = omega (arith, no_time rate (t + d))
Visit-credit rate t d {o = some b} h unvisited = omega (arith, waited rate t d (some b) h)
Visit-credit rate t d {o} h untouched = omega (arith, waited rate t d o h)
