-- ===== src/Server/RateLimit/Bound.antt =====
-- How many requests a limiter admits to one identity in a stretch of time.
use stigmergy.Prelude.{
  ℕ, ◌+◌, ◌-◌, ◌*◌, ◌≤◌, ◌≡◌, refl, String, true, ◌&&◌, Option, none, some, List, [], ◌∷◌,
  if◌then◌else◌, arith, str_eq,
}
use stigmergy.Prelude.Dict
use stigmergy.Prelude.Dict.{Dict, get-put}
use stigmergy.Server.RateLimit.{
  minute, Bucket, refill, has_token, Tool, Limiter, admitted, bucket, check, check_overall, other,
}
use stigmergy.Server.RateLimit.Visits.{credit_of, Timely, bucket_of, Visit-Timely, Visit-credit}
use stigmergy.Server.RateLimit.Outcomes.{
  is_admitted, overall_of, check-rate, check-overall, bucket-bucket_of, cost_count,
}

-- A request: how long after the one before, by whom, and for which tool.
pub record Call : Type 0 where
  pub delay : ℕ
  pub identity : String
  pub tool : Tool

-- the requests of `j` that a limiter admits, from time `t` on
unfoldable pub admissions : String → ℕ → Limiter → List Call → ℕ
admissions j t l [] = 0
admissions j t l (c ∷ cs) =
    let now = t + c.delay in
    let (v, l') = check c.identity c.tool now l in
    (if str_eq c.identity j && is_admitted v then 1 else 0) + admissions j now l' cs

unfoldable pub duration : List Call → ℕ
duration [] = 0
duration (c ∷ cs) = c.delay + duration cs

-- One identity spends no more than its credit and what time refills: from any state whose bucket of
-- the identity was last seen before, the admitted requests cost at most the credit plus the rate
-- times the time that passes.
admissions_credit :
    (j : String) (t : ℕ) (l : Limiter) (cs : List Call)
    → Timely l.overall_per_min t (overall_of j l)
    → admissions j t l cs * minute
      ≤ credit_of l.overall_per_min t (overall_of j l) + duration cs * l.overall_per_min
unfolding admissions duration
admissions_credit j t l [] h = omega arith
admissions_credit j t l (c ∷ cs) h =
    let now = t + c.delay in
    let (v, l') = check c.identity c.tool now l in
    let seen = check-overall j c.identity c.tool now l in
    let rate = check-rate c.identity c.tool now l in
    let ih =
      admissions_credit j now l' cs (rw rate (Visit-Timely l.overall_per_min t c.delay h seen)) in
    omega (
      arith,
      rw rate at ih,
      Visit-credit l.overall_per_min t c.delay h seen,
      cost_count (str_eq c.identity j && is_admitted v),
    )

-- A limiter that has not seen an identity yet admits, in any stretch of time, at most its rate per
-- minute once at the start and then the rate times the minutes that pass.
pub admissions_bound :
    (j : String) (t : ℕ) (l : Limiter) (cs : List Call)
    → Dict.get j l.overall ≡ none
    → admissions j t l cs * minute ≤ l.overall_per_min * (minute + duration cs)
admissions_bound j t l cs new =
    let bound = admissions_credit j t l cs (rw new tt) in omega (arith, rw new at bound)

le-mul : (x r : ℕ) → 1 ≤ r → x ≤ x * r
le-mul x r h = grind arith

rested_token :
    (rate now : ℕ) (o : Option Bucket)
    → 1 ≤ rate
    → ((b : Bucket) → o ≡ some b → (b.capacity ≡ rate) × (b.last + minute ≤ now))
    → has_token (refill now (bucket_of rate now o)) ≡ true
unfolding refill
rested_token rate now none h rested = ground (arith, le-mul minute rate h)
rested_token rate now (some b) h rested =
    let (same, waited_long) = rested b refl in
    ground
      (arith, le-mul minute b.capacity (rw same h), le-mul (now - b.last) b.capacity (rw same h))

-- Whoever has rested for a minute is admitted by the overall limit, if that is at least one.
pub rested_admits :
    (i : String) (now : ℕ) (l : Limiter)
    → 1 ≤ l.overall_per_min
    → ((b : Bucket)
        → Dict.get i l.overall ≡ some b
        → (b.capacity ≡ l.overall_per_min) × (b.last + minute ≤ now))
    → (check i other now l).0 ≡ admitted
unfolding check check_overall
rested_admits i now l some_rate rested =
    let full : has_token (refill now (bucket l.overall i l.overall_per_min now)) ≡ true =
      rw bucket-bucket_of
        (rested_token l.overall_per_min now (Dict.get i l.overall) some_rate rested) in
    rw (full, check_overall)
