-- ===== src/Capture/Queue/Steps.antt =====
-- Claims, expiries and submissions on a valid table, and the runs of all operations.
use stigmergy.Prelude.{
  ℕ, ◌≤◌, ◌≡◌, refl, ap, subst, ◌∙◌, Bool, true, false, ◌&&◌, not, inl, inr, some, List, [], ◌∷◌,
  arith, String, In, All-append, AllDistinct-snoc, AllDistinct-eq, All-imp, any-In, any-false,
  In-keep, In-take, In-sort_by, &&-elim, &&-intro, ==_refl, eq_refl, max, Bool-cases, Option-cases,
  ltb, leb, ◌==◌, ==_iff, keep, any, str_eq,
}
use stigmergy.Kernel.Tenancy.{Session}
use stigmergy.Capture.Json.{Fields}
use stigmergy.Capture.Schema.{queued, processing, Item, Db, is_processing}
use stigmergy.Capture.Queue.Base.{default_max_attempts, has_id}
use stigmergy.Capture.Queue.Submit.{Submission, enqueue, enqueue_for, record_extraction, conflicts}
use stigmergy.Capture.Queue.Claim.{
  pick, claimed, claim_picked, claim_next, claimable, expired, in_rows, requeued, failed_expired,
  release_expired, picked_before, first, started_before,
}
use stigmergy.Capture.Queue.Settle.{
  Landing, Failure, finish_landed, fail_or_retry, release_claim, retry_failed,
}
use stigmergy.Capture.Queue.Invariant.{
  IsSound, IsValid, key_of, update-IsValid, claimed-IsSound, requeued-IsSound,
  failed_expired-IsSound, fresh_item-IsSound, finish_landed-IsValid, fail_or_retry-IsValid,
  release_claim-IsValid, retry_failed-IsValid,
}

first-In : (r : Item) (rs : List Item) → first rs ≡ some r → In r rs
first-In r [] h = absurd (ground arith)
first-In r (x ∷ xs) h = inl (ground arith)

-- A picked row is a row of the table that may be claimed and that no other transaction holds.
pub pick-In :
    (c : Session) (now : ℕ) (locked : ℕ → Bool) (db : Db) (r : Item)
    → pick c now locked db ≡ some r
    → In r db.items × (claimable c now db r ≡ true) × (locked r.id ≡ false)
unfolding pick
pick-In c now locked db r h =
    let may = λ (w : Item). claimable c now db w && not (locked w.id) in
    let m =
      In-keep may r db.items
        (In-sort_by (picked_before db) r (keep may db.items) (first-In r _ h)) in
    let both = &&-elim (claimable c now db r) (not (locked r.id)) m.1 in
    (m.0, both.0, ground (arith, both.1))

module _ (c : Session) (db : Db) (v : IsValid db) where
  claim_picked-IsValid :
      (clock budget : ℕ) (r : Item)
      → In r db.items
      → r.status ≡ queued
      → IsValid (claim_picked c clock budget (some r) db).1
  unfolding claim_picked
  claim_picked-IsValid clock budget r m q =
      let u =
        update-IsValid c (has_id r.id) (claimed clock budget)
          (record { same_id = λ w. refl; same_key = λ w. refl }) db v
          (λ w n s h. claimed-IsSound w s clock budget (
            ap (λ (z : Item). z.status)
              (AllDistinct-eq (λ (z : Item). z.id) db.items w r v.ids n m ((==_iff _ _).0 h))
            ∙ q)) in
      record { sound = u.sound; ids = u.ids; keys = u.keys }

  pub claim_next-IsValid :
      (now clock : ℕ) (locked : ℕ → Bool) (budget : ℕ)
      → IsValid (claim_next c now clock locked budget db).1
  unfolding claim_next
  claim_next-IsValid now clock locked budget = elim (Option-cases (pick c now locked db)) [
    | inl e ↦ rw (e, claim_next, claim_picked) v
    | inr (r, e) ↦
        let m = pick-In c now locked db r e in
        rw (e, claim_next) (claim_picked-IsValid clock (max 1 budget) r m.0 (ground (arith, m.1)))
  ]

  expired-In :
      (now timeout : ℕ) (locked : ℕ → Bool) (batch : ℕ) (r : Item)
      → In r (expired c now timeout locked batch db)
      → In r db.items
  unfolding expired
  expired-In now timeout locked batch r m =
      (In-keep _ r db.items (In-sort_by started_before r _ (In-take (max 1 batch) r _ m))).0

  released_few :
      (rows : List Item)
      → ((w : Item) → In w rows → In w db.items)
      → (r : Item) → In r db.items
      → in_rows (keep (λ w. leb w.attempts default_max_attempts) rows) r ≡ true
      → (r.attempts ≤ default_max_attempts) × (r.status ≡ processing)
  released_few rows sub r m h =
      let few = λ (w : Item). leb w.attempts default_max_attempts in
      let both = &&-elim (any (λ w. w.id == r.id) (keep few rows)) (is_processing r.status) h in
      let (w, kept, same) = any-In (λ (w : Item). w.id == r.id) (keep few rows) both.0 in
      let (inside, small) = In-keep few w rows kept in
      let e =
        AllDistinct-eq (λ (z : Item). z.id) db.items w r v.ids (sub w inside) m
          ((==_iff _ _).0 same) in
      (
        subst (λ (z : Item). z.attempts ≤ default_max_attempts) e (ground arith),
        ground (arith, both.1),
      )

  pub release_expired-IsValid :
      (now timeout : ℕ) (locked : ℕ → Bool) (batch : ℕ)
      → IsValid (release_expired c now timeout locked batch db).1
  unfolding release_expired
  release_expired-IsValid now timeout locked batch =
      let rows = expired c now timeout locked batch db in
      let few = λ (r : Item). leb r.attempts default_max_attempts in
      let gone = keep (λ (r : Item). ltb default_max_attempts r.attempts) rows in
      update-IsValid c (in_rows gone) (failed_expired now)
        (record { same_id = λ w. refl; same_key = λ w. refl }) _
        (update-IsValid c (in_rows (keep few rows)) (requeued now)
          (record { same_id = λ w. refl; same_key = λ w. refl }) db v
          (λ r m s h.
            let q = released_few rows (expired-In now timeout locked batch) r m h in
            requeued-IsSound r s now q.1 q.0))
        (λ r m s h. failed_expired-IsSound r s now (ground arith))

pub record_extraction-IsValid :
    (c : Session) (db : Db)
    → IsValid db
    → (i : ℕ) (e : Fields) → IsValid (record_extraction c i e db)
unfolding record_extraction
record_extraction-IsValid c db v i e =
    update-IsValid c (has_id i) (λ r. record r { extraction = e })
      (record { same_id = λ w. refl; same_key = λ w. refl }) db v
      (λ r m s h. record { waits = s.waits; runs = s.runs; ended = s.ended })

pub conflicts_of_key :
    (t : ℕ) (s : Submission) (r : Item)
    → key_of r ≡ (t, s.subject, s.idempotency_key)
    → conflicts t s r ≡ true
conflicts_of_key t s r e =
    ap
      (λ (k : ℕ × String × String).
        (k.0 == t) && (str_eq k.1 s.subject && str_eq k.2 s.idempotency_key))
      e
    ∙ &&-intro (t == t) _ (==_refl t)
        (&&-intro (str_eq s.subject s.subject) _ (eq_refl s.subject) (eq_refl s.idempotency_key))

enqueue_for-IsValid :
    (t : ℕ) (c : Session) (now : ℕ) (s : Submission) (db : Db)
    → IsValid db
    → IsValid (enqueue_for t c now s db).1
unfolding enqueue_for
enqueue_for-IsValid t c now s db v = elim (Bool-cases (any (conflicts t s) db.items)) [
  | inl e ↦ rw (e, enqueue_for) v
  | inr e ↦ elim (Bool-cases (any (has_id s.item_id) db.items)) [
    | inl d ↦ rw (e, enqueue_for) (rw d v)
    | inr d ↦
        rw (e, enqueue_for)
          (rw d (record {
            sound = All-append IsSound db.items _ v.sound (fresh_item-IsSound t now s, tt);
            ids =
                AllDistinct-snoc (λ (z : Item). z.id) db.items _
                  (All-imp _ _ db.items (λ r h e. cc (h, (==_iff r.id s.item_id).1 e))
                    (any-false (has_id s.item_id) db.items d))
                  v.ids;
            keys =
                AllDistinct-snoc key_of db.items _
                  (All-imp _ _ db.items (λ r h e. cc (h, conflicts_of_key t s r e))
                    (any-false (conflicts t s) db.items e))
                  v.keys;
          }))
  ]
]

-- Submitting keeps the table valid: no id and no (tenant, submitter, key) ever stands twice.
pub enqueue-IsValid :
    (c : Session) (now : ℕ) (s : Submission) (db : Db) → IsValid db → IsValid (enqueue c now s db).1
unfolding enqueue
enqueue-IsValid c now s db v = elim (Option-cases c.tenant) [
  | inl e ↦ rw (e, enqueue) v
  | inr (t, e) ↦ rw (e, enqueue) (enqueue_for-IsValid t c now s db v)
]

-- One operation of the queue, by any session, at any time.
pub data Step (db : Db) : Db → Type 0 where
  submit : (c : Session) (now : ℕ) (s : Submission) → Step db (enqueue c now s db).1
  extract : (c : Session) (i : ℕ) (e : Fields) → Step db (record_extraction c i e db)
  claim :
      (c : Session) (now clock : ℕ) (locked : ℕ → Bool) (budget : ℕ)
      → Step db (claim_next c now clock locked budget db).1
  expire :
      (c : Session) (now timeout : ℕ) (locked : ℕ → Bool) (batch : ℕ)
      → Step db (release_expired c now timeout locked batch db).1
  finish :
      (c : Session) (now i attempts lease : ℕ) (w : Landing)
      → Step db (finish_landed c now i attempts lease w db).1
  fail :
      (c : Session) (now i attempts lease : ℕ) (w : Failure)
      → Step db (fail_or_retry c now i attempts lease w db).1
  release : (c : Session) (now i lease : ℕ) → Step db (release_claim c now i lease db).1
  retry : (c : Session) (now i : ℕ) → Step db (retry_failed c now i db).1

pub data Reach (db : Db) : Db → Type 0 where
  here : Reach db db
  next : {mid end : Db} → Reach db mid → Step mid end → Reach db end

pub Step-IsValid : {db end : Db} → Step db end → IsValid db → IsValid end
Step-IsValid {db} (submit c now s) v = enqueue-IsValid c now s db v
Step-IsValid {db} (extract c i e) v = record_extraction-IsValid c db v i e
Step-IsValid {db} (claim c now clock locked budget) v =
    claim_next-IsValid c db v now clock locked budget
Step-IsValid {db} (expire c now timeout locked batch) v =
    release_expired-IsValid c db v now timeout locked batch
Step-IsValid {db} (finish c now i attempts lease w) v =
    finish_landed-IsValid c db v now i attempts lease w
Step-IsValid {db} (fail c now i attempts lease w) v =
    fail_or_retry-IsValid c db v now i attempts lease w
Step-IsValid {db} (release c now i lease) v = release_claim-IsValid c db v now i lease
Step-IsValid {db} (retry c now i) v = retry_failed-IsValid c db v now i

-- Whatever operations run, in whatever order, from a valid table: every row is leased exactly while
-- it is processed and finished exactly when it has ended, counts at most three attempts, and no id
-- and no submission key stands twice.
pub Reach-IsValid : {db end : Db} → Reach db end → IsValid db → IsValid end
Reach-IsValid here v = v
Reach-IsValid (next r s) v = Step-IsValid s (Reach-IsValid r v)
