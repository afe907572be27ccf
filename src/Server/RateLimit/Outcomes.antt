-- ===== src/Server/RateLimit/Outcomes.antt =====
-- What `RateLimiter.check` makes of the overall buckets, for its own identity and for others.
use stigmergy.Prelude.{
  ℕ, ◌*◌, ◌≡◌, refl, String, Bool, true, false, ◌&&◌, ◌⊎◌, inl, inr, Option, some, if◌then◌else◌,
  arith, subst, str_eq, eq_iff, Bool-cases,
}
use stigmergy.Prelude.Dict
use stigmergy.Prelude.Dict.{Dict, get-put}
use stigmergy.Server.RateLimit.{
  minute, Bucket, refill, has_token, consume, Tool, Budget, Limiter, Verdict, admitted, bucket,
  check, check_tool, check_overall, per_min, table, with_table, store_overall, ask, brain_delete,
  brain_submit, brain_upload_finalize, other, answers, deletions, captures,
}
use stigmergy.Server.RateLimit.Visits.{bucket_of, Visit, spent, turned_away, untouched, cost}

abbrev pub is_admitted : Verdict → Bool
is_admitted admitted = true
is_admitted _ = false

abbrev pub overall_of : String → Limiter → Option Bucket
overall_of j l = Dict.get j l.overall

-- What a check makes of the overall table, `o` being the refilled overall bucket.
abbrev Outcome : String → Bucket → Limiter → Verdict × Limiter → Type 0
Outcome i o l r =
    ((is_admitted r.0 ≡ true)
      × (has_token o ≡ true)
      × (r.1.overall ≡ Dict.put i (consume o) l.overall)
      × (r.1.overall_per_min ≡ l.overall_per_min))
    ⊎ ((is_admitted r.0 ≡ false)
        × (r.1.overall ≡ Dict.put i o l.overall)
        × (r.1.overall_per_min ≡ l.overall_per_min))

check_overall-Outcome :
    (i : String) (now : ℕ) (o : Bucket) (l : Limiter) → Outcome i o l (check_overall i now o l)
unfolding check_overall
check_overall-Outcome i now o l = elim (Bool-cases (has_token o)) [
  | inl e ↦ inl (rw e, e, rw e, rw e)
  | inr e ↦ inr (rw e, rw e, rw e)
]

with_table-overall :
    (k : Budget) (d : Dict Bucket) (l : Limiter)
    → ((with_table k d l).overall ≡ l.overall)
      × ((with_table k d l).overall_per_min ≡ l.overall_per_min)
with_table-overall answers d l = (refl, refl)
with_table-overall deletions d l = (refl, refl)
with_table-overall captures d l = (refl, refl)

check_tool-Outcome :
    (k : Budget) (i : String) (now : ℕ) (o : Bucket) (l : Limiter)
    → Outcome i o l (check_tool k i now o l)
unfolding check_tool
check_tool-Outcome k i now o l =
    let e = bucket (table k l) i (per_min k l) now in
    let spent_l = store_overall i (consume o) l in
    let kept_l = store_overall i o l in
    elim (Bool-cases (has_token o)) [
      | inr h ↦
          let w = with_table-overall k (Dict.put i e (table k kept_l)) kept_l in
          inr (rw (h, check_tool), rw (h, check_tool) w.0, rw (h, check_tool) w.1)
      | inl h ↦ elim (Bool-cases (has_token (refill now e))) [
        | inr g ↦
            let w = with_table-overall k (Dict.put i (refill now e) (table k kept_l)) kept_l in
            inr (
              rw (h, check_tool) (rw g),
              rw (h, check_tool) (rw g w.0),
              rw (h, check_tool) (rw g w.1),
            )
        | inl g ↦
            let w =
              with_table-overall k (Dict.put i (consume (refill now e)) (table k spent_l))
                spent_l in
            inl (
              rw (h, check_tool) (rw g),
              h,
              rw (h, check_tool) (rw g w.0),
              rw (h, check_tool) (rw g w.1),
            )
      ]
    ]

check-Outcome :
    (i : String) (k : Tool) (now : ℕ) (l : Limiter)
    → Outcome i (refill now (bucket l.overall i l.overall_per_min now)) l (check i k now l)
unfolding check
check-Outcome i ask now l = check_tool-Outcome answers i now _ l
check-Outcome i brain_delete now l = check_tool-Outcome deletions i now _ l
check-Outcome i brain_submit now l = check_tool-Outcome captures i now _ l
check-Outcome i brain_upload_finalize now l = check_tool-Outcome captures i now _ l
check-Outcome i other now l = check_overall-Outcome i now _ l

pub check-rate :
    (i : String) (k : Tool) (now : ℕ) (l : Limiter)
    → (check i k now l).1.overall_per_min ≡ l.overall_per_min
check-rate i k now l = elim (check-Outcome i k now l) [ inl h ↦ h.3 | inr h ↦ h.2 ]

pub bucket-bucket_of :
    (d : Dict Bucket) (i : String) (rate now : ℕ)
    → bucket d i rate now ≡ bucket_of rate now (Dict.get i d)
unfolding bucket
bucket-bucket_of d i rate now = ground arith

own_spent :
    (i : String) (now : ℕ) (l : Limiter)
    → has_token (refill now (bucket l.overall i l.overall_per_min now)) ≡ true
    → Visit l.overall_per_min now
        (overall_of i l)
        true
        (some (consume (refill now (bucket l.overall i l.overall_per_min now))))
own_spent i now l e = rw bucket-bucket_of (spent (rw bucket-bucket_of at e))

own_refused :
    (i : String) (now : ℕ) (l : Limiter)
    → Visit l.overall_per_min now
        (overall_of i l)
        false
        (some (refill now (bucket l.overall i l.overall_per_min now)))
own_refused i now l = rw bucket-bucket_of turned_away

pub cost_count : (b : Bool) → (if b then 1 else 0) * minute ≡ cost b
cost_count true = refl
cost_count false = refl

-- A check visits the overall bucket of its own identity and no other.
pub check-overall :
    (j i : String) (k : Tool) (now : ℕ) (l : Limiter)
    → Visit l.overall_per_min now
        (overall_of j l)
        (str_eq i j && is_admitted (check i k now l).0)
        (overall_of j (check i k now l).1)
check-overall j i k now l =
    let o = refill now (bucket l.overall i l.overall_per_min now) in
    elim (Bool-cases (str_eq i j)) [
      | inr away ↦ elim (check-Outcome i k now l) [
        | inl h ↦ rw (away, h.2, get-put, away) untouched
        | inr h ↦ rw (away, h.1, get-put, away) untouched
      ]
      | inl same ↦ elim (check-Outcome i k now l) [
        | inl h ↦
            rw (same, h.0, h.2, get-put, same)
              (subst (λ z. Visit l.overall_per_min now (overall_of z l) true (some (consume o)))
                ((eq_iff i j).0 same) (own_spent i now l h.1))
        | inr h ↦
            rw (same, h.0, h.1, get-put, same)
              (subst (λ z. Visit l.overall_per_min now (overall_of z l) false (some o))
                ((eq_iff i j).0 same) (own_refused i now l))
      ]
    ]
