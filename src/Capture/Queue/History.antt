-- ===== src/Capture/Queue/History.antt =====
-- Whole runs of the queue seen from one row: a landed one, and one that the session does not see.
use stigmergy.Prelude.{
  ℕ, ◌≡◌, ◌≢◌, refl, ap, ◌∙◌, Bool, true, false, ◌&&◌, inl, inr, some, List, arith, Bool-cases,
  Option-cases, ltb, leb, &&-elim, max, keep, any, suc, AllDistinct-eq, find-some-In, ==_iff,
}
use stigmergy.Kernel.Tenancy.{Session, visible}
use stigmergy.Capture.Schema.{landed, Item, Db, is_processing}
use stigmergy.Capture.Queue.Base.{update, select, has_id, default_max_attempts}
use stigmergy.Capture.Queue.Submit.{
  Submission, enqueue, enqueue_for, record_extraction, conflicts, fresh_item,
}
use stigmergy.Capture.Queue.Claim.{
  pick, claimed, claim_picked, claim_next, expired, in_rows, requeued, failed_expired,
  release_expired,
}
use stigmergy.Capture.Queue.Settle.{
  owned, settle, finish_landed, landed_row, fail_or_retry, failed_row, leased, release_claim,
  released_row, retriable, retry_failed, retried_row,
}
use stigmergy.Capture.Queue.Invariant.{IsValid}
use stigmergy.Capture.Queue.Steps.{
  Step, submit, extract, claim, expire, finish, fail, release, retry, Reach, here, next,
  Reach-IsValid, pick-In,
}
use stigmergy.Capture.Queue.Row.{row_at, row_at-update, row_at-append}
use stigmergy.Capture.Json.{Fields}

-- The row of id `i` before an operation, and what of it must be found again afterwards.
abbrev pub Kept : (Item → Item → Type 0) → ℕ → Item → Db → Type 0
Kept Same i r db = (w : Item) × (row_at i db ≡ some w) × Same r w

-- What protects a row from a session: where the session sees it, it has landed, and then only its
-- extraction may be written.
pub record Protected (Same : Item → Item → Type 0) (c : Session) (r : Item) : Type 0 where
  pub extracted : visible c r.tenant_id ≡ true → (e : Fields) → Same r (record r { extraction = e })
  pub settled : visible c r.tenant_id ≡ true → r.status ≡ landed

update_untouched :
    (i : ℕ) (r : Item) (db : Db) (c : Session) (p : Item → Bool) (f : Item → Item)
    → row_at i db ≡ some r
    → ((z : Item) → (f z).id ≡ z.id)
    → (visible c r.tenant_id && p r) ≡ false
    → row_at i (update c p f db) ≡ some r
update_untouched i r db c p f found same out =
    row_at-update i c p f db same ∙ rw found (ap some (rw out))

module _ (Same : Item → Item → Type 0) (keeps : (r : Item) → Same r r) (i : ℕ) (r : Item) (db : Db)
    (found : row_at i db ≡ some r) where
  pub update_keeps :
      (c : Session) (p : Item → Bool) (f : Item → Item)
      → ((z : Item) → (f z).id ≡ z.id)
      → ((visible c r.tenant_id && p r) ≡ true → Same r (f r))
      → Kept Same i r (update c p f db)
  update_keeps c p f same step = elim (Bool-cases (visible c r.tenant_id && p r)) [
    | inl e ↦ (f r, row_at-update i c p f db same ∙ rw found (ap some (rw e)), step e)
    | inr e ↦ (r, row_at-update i c p f db same ∙ rw found (ap some (rw e)), keeps r)
  ]

  pub settle_keeps :
      (c : Session) (j a l : ℕ) (f : Item → Item)
      → ((z : Item) → (f z).id ≡ z.id)
      → ((visible c r.tenant_id && owned j a l r) ≡ true → Same r (f r))
      → Kept Same i r (settle c j a l f db).1
  unfolding settle
  settle_keeps c j a l f same step = elim (Option-cases (select c (owned j a l) db)) [
    | inl e ↦ rw (e, settle) (r, found, keeps r)
    | inr (z, e) ↦ rw (e, settle) (update_keeps c (owned j a l) f same step)
  ]

  pub enqueue_keeps :
      (c : Session) (now : ℕ) (s : Submission) → Kept Same i r (enqueue c now s db).1
  unfolding enqueue enqueue_for
  enqueue_keeps c now s = elim (Option-cases c.tenant) [
    | inl e ↦ rw (e, enqueue) (r, found, keeps r)
    | inr (t, e) ↦
        rw (e, enqueue)
          (elim (Bool-cases (any (conflicts t s) db.items)) [
            | inl k ↦ rw (k, enqueue_for) (r, found, keeps r)
            | inr k ↦ elim (Bool-cases (any (has_id s.item_id) db.items)) [
              | inl d ↦ rw (k, enqueue_for) (rw d (r, found, keeps r))
              | inr d ↦
                  rw (k, enqueue_for)
                    (rw d
                      (r, row_at-append i db (fresh_item t now s) r (suc db.wakes) found, keeps r))
            ]
          ])
  ]

  module _ (c : Session) (safe : Protected Same c r) where
    only_active :
        (p : Bool)
        → (visible c r.tenant_id && p) ≡ true
        → (p ≡ true → r.status ≢ landed)
        → (z : Item) → Same r z
    only_active p h busy z =
        let (seen, met) = &&-elim (visible c r.tenant_id) p h in
        absurd (busy met (safe.settled seen))

    extract_keeps : (j : ℕ) (e : Fields) → Kept Same i r (record_extraction c j e db)
    unfolding record_extraction
    extract_keeps j e =
        update_keeps c (has_id j) (λ z. record z { extraction = e }) (λ z. refl)
          (λ h. safe.extracted (&&-elim (visible c r.tenant_id) _ h).0 e)

    claim_keeps :
        IsValid db
        → (now clock : ℕ) (locked : ℕ → Bool) (budget : ℕ)
        → Kept Same i r (claim_next c now clock locked budget db).1
    unfolding claim_next claim_picked
    claim_keeps v now clock locked budget = elim (Option-cases (pick c now locked db)) [
      | inl e ↦ rw (e, claim_next, claim_picked) (r, found, keeps r)
      | inr (w, e) ↦
          let (m, free, unlocked) = pick-In c now locked db w e in
          rw (e, claim_next, claim_picked)
            (update_keeps c (has_id w.id) (claimed clock (max 1 budget)) (λ z. refl)
              (λ h.
                only_active (has_id w.id r) h
                  (λ same done. ground (
                    arith,
                    free,
                    AllDistinct-eq (λ (z : Item). z.id) db.items r w v.ids
                        (find-some-In (has_id i) r db.items found).0 m ((==_iff r.id w.id).0 same),
                  ))
                  (claimed clock (max 1 budget) r)))
    ]

    settle_safe :
        (j a l : ℕ) (f : Item → Item)
        → ((z : Item) → (f z).id ≡ z.id)
        → Kept Same i r (settle c j a l f db).1
    settle_safe j a l f same =
        settle_keeps c j a l f same
          (λ h. only_active (owned j a l r) h (λ met done. ground arith) (f r))

    update_safe :
        (p : Item → Bool) (f : Item → Item)
        → ((z : Item) → (f z).id ≡ z.id)
        → (p r ≡ true → r.status ≢ landed)
        → Kept Same i r (update c p f db)
    update_safe p f same busy = update_keeps c p f same (λ h. only_active (p r) h busy (f r))

    not_reclaimed : (rows : List Item) → (visible c r.tenant_id && in_rows rows r) ≡ false
    not_reclaimed rows = elim (Bool-cases (visible c r.tenant_id && in_rows rows r)) [
      | inl h ↦
          let (seen, met) = &&-elim (visible c r.tenant_id) (in_rows rows r) h in
          ground (arith, safe.settled seen, (&&-elim _ (is_processing r.status) met).1)
      | inr h ↦ h
    ]

    expire_keeps :
        (now timeout : ℕ) (locked : ℕ → Bool) (batch : ℕ)
        → Kept Same i r (release_expired c now timeout locked batch db).1
    unfolding release_expired
    expire_keeps now timeout locked batch = (
      r,
      update_untouched i r
          (update c
            (in_rows (
              keep (λ z. leb z.attempts default_max_attempts)
                (expired c now timeout locked batch db)))
            (requeued now) db)
          c _ (failed_expired now)
          (update_untouched i r db c _ (requeued now) found (λ z. refl) (not_reclaimed _))
          (λ z. refl) (not_reclaimed _),
      keeps r,
    )

    retry_keeps : (now j : ℕ) → Kept Same i r (retry_failed c now j db).1
    unfolding retry_failed
    retry_keeps now j = elim (Option-cases (select c (retriable j) db)) [
      | inl e ↦ rw (e, retry_failed) (r, found, keeps r)
      | inr (z, e) ↦
          rw (e, retry_failed)
            (update_safe (retriable j) (retried_row now) (λ w. refl) (λ met done. ground arith))
    ]

-- the session that an operation runs in
abbrev pub session : {db end : Db} → Step db end → Session
session (submit c now s) = c
session (extract c i e) = c
session (claim c now clock locked budget) = c
session (expire c now timeout locked batch) = c
session (finish c now i attempts lease w) = c
session (fail c now i attempts lease w) = c
session (release c now i lease) = c
session (retry c now i) = c

module _ (Same : Item → Item → Type 0) (keeps : (r : Item) → Same r r) (i : ℕ) (r : Item) where
  Step_keeps :
      {db end : Db} (s : Step db end)
      → IsValid db
      → Protected Same (session s) r
      → row_at i db ≡ some r
      → Kept Same i r end
  unfolding finish_landed fail_or_retry release_claim
  Step_keeps {db} (submit c now s) v p found = enqueue_keeps Same keeps i r db found c now s
  Step_keeps {db} (extract c j e) v p found = extract_keeps Same keeps i r db found c p j e
  Step_keeps {db} (claim c now clock locked budget) v p found =
      claim_keeps Same keeps i r db found c p v now clock locked budget
  Step_keeps {db} (expire c now timeout locked batch) v p found =
      expire_keeps Same keeps i r db found c p now timeout locked batch
  Step_keeps {db} (finish c now j a l w) v p found =
      settle_safe Same keeps i r db found c p j a l (landed_row now w) (λ z. refl)
  Step_keeps {db} (fail c now j a l w) v p found =
      settle_safe Same keeps i r db found c p j a l
        (failed_row now (w.retryable && ltb a default_max_attempts) w) (λ z. refl)
  Step_keeps {db} (release c now j l) v p found =
      update_safe Same keeps i r db found c p (leased j l) (released_row now) (λ z. refl)
        (λ met done. ground arith)
  Step_keeps {db} (retry c now j) v p found = retry_keeps Same keeps i r db found c p now j

-- The row but for what extraction stored.
abbrev pub SameLanding : Item → Item → Type 0
SameLanding r w = w ≡ record r { extraction = w.extraction }

-- A landing is final: whatever operations of the queue any sessions run afterwards, the row stays
-- landed with its commit, its source, its change and its report; only its extraction may be written
-- again.
pub landed_final :
    {db end : Db} (run : Reach db end) (i : ℕ) (r : Item)
    → IsValid db
    → row_at i db ≡ some r
    → r.status ≡ landed
    → Kept SameLanding i r end
landed_final here i r v found done = (r, found, refl)
landed_final (next {mid} run s) i r v found done =
    let (w, there, same) = landed_final run i r v found done in
    let (z, after, again) =
      Step_keeps SameLanding (λ x. refl) i w s (Reach-IsValid run v)
        (record {
          extracted = λ seen e. refl;
          settled = λ seen. ap (λ (x : Item). x.status) same ∙ done;
        })
        there in
    (z, after, again ∙ ap (λ (x : Item). record x { extraction = z.extraction }) same)

-- Tenants are isolated: an operation of a session that does not see a row leaves that row as it is.
pub isolated :
    {db end : Db} (s : Step db end) (i : ℕ) (r : Item)
    → IsValid db
    → row_at i db ≡ some r
    → visible (session s) r.tenant_id ≡ false
    → row_at i end ≡ some r
isolated s i r v found hidden =
    let (w, there, same) =
      Step_keeps (λ x y. y ≡ x) (λ x. refl) i r s v
        (record {
          extracted = λ seen e. absurd (ground arith);
          settled = λ seen. absurd (ground arith);
        })
        found in
    there ∙ ap some same
