-- ===== src/Ops/Erasure/Pushed.antt =====
-- A request whose rewritten history may have been pushed, when work is claimed and when a run fails.
use stigmergy.Prelude.{
  find-some-In, ℕ, ◌≡◌, ◌≢◌, ◌≤◌, ◌⊎◌, none, eq_iff, refl, ap, ◌∙◌, String, Bool, true, false, ◌&&◌,
  not, inl, inr, Option, some, List, arith, leb, ◌==◌, if◌then◌else◌, find, find-update_rows,
  Bool-cases, Option-cases,
}
use mathlib.Core.Option
use stigmergy.Kernel.Tenancy.{Session, visible}
use stigmergy.Capture.Schema.{is_open, waiting}
use stigmergy.Ops.Erasure.{
  Request, recorded, exhausted, given_up, started, has_id, update, oldest_due, give_up, claim,
  failed_row, fail, may_be_pushed, latest, due, settle_failure, max_attempts,
}

abbrev pub row_at : ℕ → List Request → Option Request
row_at i rows = find (has_id i) rows

row_at-update :
    (i : ℕ) (c : Session) (p : Request → Bool) (f : Request → Request) (rows : List Request)
    → ((r : Request) → (f r).id ≡ r.id)
    → row_at i (update c p f rows)
      ≡ Option.map (λ r. if visible c r.tenant_id && p r then f r else r) (row_at i rows)
row_at-update i c p f rows same =
    find-update_rows (has_id i) _ f (λ r. ap (λ n. n == i) (same r)) rows

maybe_pushed :
    (reached : Option Bool) (r : Request)
    → (r.pushed ≡ true) ⊎ ((r.new_head ≢ "") × (reached ≢ some false))
    → may_be_pushed reached r ≡ true
unfolding may_be_pushed
maybe_pushed reached r (inl e) = rw (e, may_be_pushed) refl
maybe_pushed none r (inr (head, known)) = ground (arith, eq_iff r.new_head "")
maybe_pushed (some true) r (inr (head, known)) = ground (arith, eq_iff r.new_head "")
maybe_pushed (some false) r (inr (head, known)) = absurd (known refl)

told_recorded :
    {P : Type 0} (r : Request) → (r.pushed ≡ true) ⊎ ((r.new_head ≢ "") × P) → recorded r ≡ true
told_recorded r (inl e) = rw e refl
told_recorded r (inr (head, known)) = ground (arith, eq_iff r.new_head "")

due_when_noted :
    (c : Session) (now : ℕ) (rows : List Request) (r : Request)
    → is_open r.status ≡ true
    → r.next_attempt_at ≤ now
    → recorded r ≡ true
    → due c now rows r ≡ true
unfolding due
due_when_noted c now rows r alive since h = elim (Bool-cases r.pushed) [
  | inl e ↦ ground arith
  | inr e ↦ ground arith
]

-- What a request that may have reached the remote keeps: it is open, and it is still known that its
-- rewrite may be pushed, under the same new head.
pub record StaysOpen (r w : Request) : Type 0 where
  pub still_open : is_open w.status ≡ true
  pub same_pushed : w.pushed ≡ r.pushed
  pub same_head : w.new_head ≡ r.new_head
  pub same_rewrite : w.rewrite ≡ r.rewrite

module _ (c : Session) (now i : ℕ) (rows : List Request) (r : Request)
    (found : row_at i rows ≡ some r) where
  give_up_row : recorded r ≡ true → row_at i (give_up c now rows) ≡ some r
  unfolding give_up
  give_up_row h =
      row_at-update i c exhausted (given_up now) rows (λ z. unfold given_up in refl)
      ∙ rw found (ground (arith, h))

  started_row :
      (found_rows : List Request)
      → row_at i found_rows ≡ some r
      → (k : ℕ) → is_open r.status ≡ true
      → (w : Request) × (row_at i (update c (has_id k) (started now) found_rows) ≡ some w)
        × StaysOpen r w
  started_row found_rows at_i k alive = elim (Bool-cases (visible c r.tenant_id && has_id k r)) [
    | inl e ↦ (
      started now r,
      row_at-update i c (has_id k) (started now) found_rows (λ z. unfold started in refl)
          ∙ rw at_i (rw e),
      unfold started in
          record { still_open = refl; same_pushed = refl; same_head = refl; same_rewrite = refl },
    )
    | inr e ↦ (
      r,
      row_at-update i c (has_id k) (started now) found_rows (λ z. unfold started in refl)
          ∙ rw at_i (rw e),
      record { still_open = alive; same_pushed = refl; same_head = refl; same_rewrite = refl },
    )
  ]

  -- Claiming work never gives up a request with a recorded rewrite: whichever request is claimed,
  -- this one stays open with its rewrite.
  pub claim-StaysOpen :
      (locked : ℕ → Bool)
      → recorded r ≡ true
      → is_open r.status ≡ true
      → (w : Request) × (row_at i (claim c now locked rows).1 ≡ some w) × StaysOpen r w
  unfolding claim
  claim-StaysOpen locked h alive =
      elim (Option-cases (oldest_due c now locked (give_up c now rows))) [
        | inl e ↦ (
          r,
          rw (claim, e) (give_up_row h),
          record { still_open = alive; same_pushed = refl; same_head = refl; same_rewrite = refl },
        )
        | inr (q, e) ↦ rw (claim, e) (started_row (give_up c now rows) (give_up_row h) q.id alive)
      ]

  failed_in_place :
      (attempts : ℕ) (reached : Option Bool) (error : String)
      → visible c r.tenant_id ≡ true
      → latest c r.layer rows ≡ some r
      → may_be_pushed reached r ≡ true
      → row_at i (settle_failure c now i r.layer attempts reached error rows)
        ≡ some (failed_row now false error r)
  unfolding settle_failure fail
  failed_in_place attempts reached error seen last maybe =
      let never : (leb max_attempts attempts && not (may_be_pushed reached r)) ≡ false =
        ground (arith, maybe) in
      rw (last, settle_failure, never)
        (row_at-update i c (has_id i) (failed_row now false error) rows
            (λ z. unfold failed_row in refl)
          ∙ rw found (rw (seen, (find-some-In (has_id i) r rows found).1)))

  -- A failed run never ends a request that may have been pushed: one that is marked pushed, or
  -- whose rewrite is recorded while the remote is not known to lack it. After whatever attempt and
  -- with whatever error, where the session sees the request and it is the latest of its layer, it
  -- waits with the error, keeps its rewrite, its names, its garbage and its count of attempts, and
  -- is due again at the time that its claim had set.
  pub settle_failure-StaysOpen :
      (attempts : ℕ) (reached : Option Bool) (error : String)
      → visible c r.tenant_id ≡ true
      → latest c r.layer rows ≡ some r
      → (r.pushed ≡ true) ⊎ ((r.new_head ≢ "") × (reached ≢ some false))
      → (later : ℕ) → r.next_attempt_at ≤ later
      → let rows' = settle_failure c now i r.layer attempts reached error rows in
        (w : Request) × (row_at i rows' ≡ some w)
        × (w.status ≡ waiting)
        × StaysOpen r w
        × (w.error ≡ error)
        × (w.names ≡ r.names)
        × (w.garbage ≡ r.garbage)
        × (w.attempts ≡ r.attempts)
        × (due c later rows' w ≡ true)
  unfolding failed_row due
  settle_failure-StaysOpen attempts reached error seen last told later since = (
    failed_row now false error r,
    failed_in_place attempts reached error seen last (maybe_pushed reached r told),
    refl,
    record { still_open = refl; same_pushed = refl; same_head = refl; same_rewrite = refl },
    refl,
    refl,
    refl,
    refl,
    due_when_noted c later _ (failed_row now false error r) refl since (told_recorded r told),
  )
