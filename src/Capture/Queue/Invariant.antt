-- ===== src/Capture/Queue/Invariant.antt =====
-- What a valid table is, and the operations of a claim's owner on one.
use stigmergy.Prelude.{
  ℕ, ◌+◌, ◌≤◌, ◌≡◌, refl, Bool, true, false, ◌&&◌, ◌⊎◌, inl, inr, none, arith, String, is_some, All,
  In, All-update_In, AllDistinct, AllDistinct-update_rows, ltb, &&-elim, Option-cases,
}
use stigmergy.Kernel.Tenancy.{Session, visible}
use stigmergy.Capture.Schema.{queued, processing, landed, failed, Item, Db}
use stigmergy.Capture.Queue.Base.{default_max_attempts, update, select}
use stigmergy.Capture.Queue.Submit.{Submission, fresh_item}
use stigmergy.Capture.Queue.Claim.{claimed, requeued, failed_expired}
use stigmergy.Capture.Queue.Settle.{
  owned, settle, Landing, landed_row, finish_landed, Failure, failed_row, fail_or_retry, leased,
  released_row, release_claim, retriable, retried_row, retry_failed,
}

-- A row is leased exactly while it is processed, finished exactly when it has ended, counts at most
-- three attempts, and while it is processed it has a start and a deadline of its budget.
pub record IsSound (r : Item) : Type 0 where
  pub waits :
      r.status ≡ queued
      → (r.lease_started_at ≡ none) × (r.finished_at ≡ none) × (r.attempts ≤ default_max_attempts)
  pub runs :
      r.status ≡ processing
      → (is_some r.lease_started_at ≡ true)
        × (r.finished_at ≡ none)
        × (is_some r.processing_started_at ≡ true)
        × (is_some r.budget_deadline_at ≡ true)
        × (1 ≤ r.attempts)
        × (r.attempts ≤ default_max_attempts + 1)
  pub ended :
      (r.status ≡ landed) ⊎ (r.status ≡ failed)
      → (r.lease_started_at ≡ none)
        × (is_some r.finished_at ≡ true)
        × (r.attempts ≤ default_max_attempts + 1)

abbrev pub AllSound : Db → Type 0
AllSound db = All IsSound db.items

module _ (r : Item) (s : IsSound r) where
  pub claimed-IsSound : (clock budget : ℕ) → r.status ≡ queued → IsSound (claimed clock budget r)
  unfolding claimed
  claimed-IsSound clock budget q = ground arith

  landed_row-IsSound :
      (now : ℕ) (w : Landing) → r.status ≡ processing → IsSound (landed_row now w r)
  unfolding landed_row
  landed_row-IsSound now w q = ground arith

  pub requeued-IsSound :
      (now : ℕ)
      → r.status ≡ processing
      → r.attempts ≤ default_max_attempts
      → IsSound (requeued now r)
  unfolding requeued
  requeued-IsSound now q few = ground arith

  released_row-IsSound : (now : ℕ) → r.status ≡ processing → IsSound (released_row now r)
  unfolding released_row
  released_row-IsSound now q = ground arith

  pub failed_expired-IsSound : (now : ℕ) → r.status ≡ processing → IsSound (failed_expired now r)
  unfolding failed_expired
  failed_expired-IsSound now q = ground arith

  failed_row-IsSound :
      (now : ℕ) (retry : Bool) (w : Failure)
      → r.status ≡ processing
      → (retry ≡ true → r.attempts ≤ default_max_attempts)
      → IsSound (failed_row now retry w r)
  unfolding failed_row
  failed_row-IsSound now true w q few = ground (arith, few refl)
  failed_row-IsSound now false w q few = ground arith

pub fresh_item-IsSound : (t now : ℕ) (s : Submission) → IsSound (fresh_item t now s)
unfolding fresh_item
fresh_item-IsSound t now s = ground arith

retried_row-IsSound : (r : Item) (now : ℕ) → IsSound (retried_row now r)
unfolding retried_row
retried_row-IsSound r now = ground arith

-- the unique key of the table
abbrev pub key_of : Item → ℕ × String × String
key_of r = (r.tenant_id, r.submitted_by, r.idempotency_key)

-- What the table's constraints and the operations keep: sound rows, no id twice, no key twice.
pub record IsValid (db : Db) : Type 0 where
  pub sound : All IsSound db.items
  pub ids : AllDistinct (λ r. r.id) db.items
  pub keys : AllDistinct key_of db.items

-- A change of rows that moves no id and no key.
pub record KeepsKeys (f : Item → Item) : Type 0 where
  pub same_id : (r : Item) → (f r).id ≡ r.id
  pub same_key : (r : Item) → key_of (f r) ≡ key_of r

module _ (c : Session) (p : Item → Bool) (f : Item → Item) (k : KeepsKeys f) (db : Db) where
  pub update-IsValid :
      IsValid db
      → ((r : Item) → In r db.items → IsSound r → p r ≡ true → IsSound (f r))
      → IsValid (update c p f db)
  update-IsValid v step = record {
    sound =
        All-update_In IsSound _ f db.items
          (λ r m s h. step r m s (&&-elim (visible c r.tenant_id) (p r) h).1) v.sound;
    ids = AllDistinct-update_rows (λ r. r.id) _ f db.items k.same_id v.ids;
    keys = AllDistinct-update_rows key_of _ f db.items k.same_key v.keys;
  }

module _ (c : Session) (db : Db) (v : IsValid db) where
  settle-IsValid :
      (i attempts lease : ℕ) (f : Item → Item)
      → KeepsKeys f
      → ((r : Item) → IsSound r → owned i attempts lease r ≡ true → IsSound (f r))
      → IsValid (settle c i attempts lease f db).1
  unfolding settle
  settle-IsValid i attempts lease f k step =
      elim (Option-cases (select c (owned i attempts lease) db)) [
        | inl e ↦ rw (e, settle) v
        | inr (r, e) ↦
            rw (e, settle) (update-IsValid c (owned i attempts lease) f k db v (λ r m. step r))
      ]

  -- Finishing a claim keeps the table valid, whether or not the claim still holds.
  pub finish_landed-IsValid :
      (now i attempts lease : ℕ) (w : Landing)
      → IsValid (finish_landed c now i attempts lease w db).1
  unfolding finish_landed
  finish_landed-IsValid now i attempts lease w =
      settle-IsValid i attempts lease (landed_row now w)
        (record {
          same_id = λ r. unfold landed_row in refl;
          same_key = λ r. unfold landed_row in refl;
        })
        (λ r s h. landed_row-IsSound r s now w (ground arith))

  pub fail_or_retry-IsValid :
      (now i attempts lease : ℕ) (w : Failure)
      → IsValid (fail_or_retry c now i attempts lease w db).1
  unfolding fail_or_retry
  fail_or_retry-IsValid now i attempts lease w =
      let retry = w.retryable && ltb attempts default_max_attempts in
      settle-IsValid i attempts lease (failed_row now retry w)
        (record {
          same_id = λ r. unfold failed_row in refl;
          same_key = λ r. unfold failed_row in refl;
        })
        (λ r s h. failed_row-IsSound r s now retry w (ground arith) (λ e. ground arith))

  pub release_claim-IsValid : (now i lease : ℕ) → IsValid (release_claim c now i lease db).1
  unfolding release_claim
  release_claim-IsValid now i lease =
      update-IsValid c (leased i lease) (released_row now)
        (record { same_id = λ r. refl; same_key = λ r. refl }) db v
        (λ r m s h. released_row-IsSound r s now (ground arith))

  pub retry_failed-IsValid : (now i : ℕ) → IsValid (retry_failed c now i db).1
  unfolding retry_failed
  retry_failed-IsValid now i = elim (Option-cases (select c (retriable i) db)) [
    | inl e ↦ rw (e, retry_failed) v
    | inr (r, e) ↦
        let u =
          update-IsValid c (retriable i) (retried_row now)
            (record { same_id = λ w. refl; same_key = λ w. refl }) db v
            (λ w m s h. retried_row-IsSound w now) in
        rw (e, retry_failed) (record { sound = u.sound; ids = u.ids; keys = u.keys })
  ]
