-- ===== src/Capture/Queue/Submitted.antt =====
-- What of a submission no operation of the queue ever writes.
use stigmergy.Prelude.{
  ℕ, ◌≡◌, refl, ◌∙◌, String, Bool, ◌&&◌, inl, inr, some, Option-cases, max, ltb, leb, keep,
}
use stigmergy.Kernel.Tenancy.{Session}
use stigmergy.Capture.Json.{Fields}
use stigmergy.Capture.Schema.{Operation, Item, Db}
use stigmergy.Capture.Queue.Base.{update, select, has_id, default_max_attempts}
use stigmergy.Capture.Queue.Submit.{record_extraction}
use stigmergy.Capture.Queue.Claim.{
  pick, claimed, claim_picked, claim_next, expired, in_rows, requeued, failed_expired,
  release_expired,
}
use stigmergy.Capture.Queue.Settle.{
  landed_row, finish_landed, Failure, fail_or_retry, failed_row, leased, release_claim,
  released_row, retriable, retry_failed, retried_row,
}
use stigmergy.Capture.Queue.Invariant.{key_of}
use stigmergy.Capture.Queue.Steps.{
  Step, submit, extract, claim, expire, finish, fail, release, retry, Reach, here, next,
}
use stigmergy.Capture.Queue.Row.{row_at}
use stigmergy.Capture.Queue.History.{Kept, update_keeps, settle_keeps, enqueue_keeps}

-- The tenant, the submitter and the key, the operation and the request of a row.
abbrev pub submission_of : Item → (ℕ × String × String) × Operation × Fields
submission_of r = (key_of r, r.operation, r.request)

abbrev pub SameSubmission : Item → Item → Type 0
SameSubmission r w = submission_of w ≡ submission_of r

failed_row-SameSubmission :
    (now : ℕ) (requeue : Bool) (v : Failure) (r : Item)
    → SameSubmission r (failed_row now requeue v r)
unfolding failed_row
failed_row-SameSubmission now requeue v r = refl

module _ (i : ℕ) (r : Item) where
  update_stays :
      (db : Db)
      → row_at i db ≡ some r
      → (c : Session) (p : Item → Bool) (f : Item → Item) → ((z : Item) → (f z).id ≡ z.id)
      → SameSubmission r (f r)
      → Kept SameSubmission i r (update c p f db)
  update_stays db found c p f same step =
      update_keeps SameSubmission (λ x. refl) i r db found c p f same (λ h. step)

  claim_stays :
      (db : Db)
      → row_at i db ≡ some r
      → (c : Session) (now clock : ℕ) (locked : ℕ → Bool) (budget : ℕ)
      → Kept SameSubmission i r (claim_next c now clock locked budget db).1
  unfolding claim_next claim_picked claimed
  claim_stays db found c now clock locked budget = elim (Option-cases (pick c now locked db)) [
    | inl e ↦ rw (e, claim_next, claim_picked) (r, found, refl)
    | inr (w, e) ↦
        rw (e, claim_next, claim_picked)
          (update_stays db found c (has_id w.id) (claimed clock (max 1 budget)) (λ z. refl) refl)
  ]

  retry_stays :
      (db : Db)
      → row_at i db ≡ some r
      → (c : Session) (now j : ℕ) → Kept SameSubmission i r (retry_failed c now j db).1
  unfolding retry_failed retried_row
  retry_stays db found c now j = elim (Option-cases (select c (retriable j) db)) [
    | inl e ↦ rw (e, retry_failed) (r, found, refl)
    | inr (z, e) ↦
        rw (e, retry_failed)
          (update_stays db found c (retriable j) (retried_row now) (λ w. refl) refl)
  ]

expire_stays :
    (i : ℕ) (r : Item) (db : Db)
    → row_at i db ≡ some r
    → (c : Session) (now timeout : ℕ) (locked : ℕ → Bool) (batch : ℕ)
    → Kept SameSubmission i r (release_expired c now timeout locked batch db).1
unfolding release_expired requeued failed_expired
expire_stays i r db found c now timeout locked batch =
    let rows = expired c now timeout locked batch db in
    let few = in_rows (keep (λ z. leb z.attempts default_max_attempts) rows) in
    let (w, there, same) = update_stays i r db found c few (requeued now) (λ z. refl) refl in
    let (z, after, again) =
      update_stays i w (update c few (requeued now) db) there c
        (in_rows (keep (λ z. ltb default_max_attempts z.attempts) rows)) (failed_expired now)
        (λ z. refl) refl in
    (z, after, again ∙ same)

Step_stays :
    {db end : Db} (s : Step db end) (i : ℕ) (r : Item)
    → row_at i db ≡ some r
    → Kept SameSubmission i r end
unfolding finish_landed fail_or_retry release_claim record_extraction landed_row released_row
Step_stays {db} (submit c now s) i r found =
    enqueue_keeps SameSubmission (λ x. refl) i r db found c now s
Step_stays {db} (extract c j e) i r found =
    update_stays i r db found c (has_id j) (λ z. record z { extraction = e }) (λ z. refl) refl
Step_stays {db} (claim c now clock locked budget) i r found =
    claim_stays i r db found c now clock locked budget
Step_stays {db} (expire c now timeout locked batch) i r found =
    expire_stays i r db found c now timeout locked batch
Step_stays {db} (finish c now j a l w) i r found =
    settle_keeps SameSubmission (λ x. refl) i r db found c j a l (landed_row now w) (λ z. refl)
      (λ h. refl)
Step_stays {db} (fail c now j a l w) i r found =
    let requeue = w.retryable && ltb a default_max_attempts in
    settle_keeps SameSubmission (λ x. refl) i r db found c j a l (failed_row now requeue w)
      (λ z. refl) (λ h. failed_row-SameSubmission now requeue w r)
Step_stays {db} (release c now j l) i r found =
    update_stays i r db found c (leased j l) (released_row now) (λ z. refl) refl
Step_stays {db} (retry c now j) i r found = retry_stays i r db found c now j

-- A row stays in the table with its submission, whatever operations any sessions run.
pub Reach_stays :
    {db end : Db} (run : Reach db end) (i : ℕ) (r : Item)
    → row_at i db ≡ some r
    → Kept SameSubmission i r end
Reach_stays here i r found = (r, found, refl)
Reach_stays (next run s) i r found =
    let (w, there, same) = Reach_stays run i r found in
    let (z, after, again) = Step_stays s i w there in (z, after, again ∙ same)
