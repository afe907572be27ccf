-- ===== src/Capture/Queue/Holder.antt =====
-- Who may settle a claim of src/stigmergy/capture/queue.py: `finish_landed` and `fail_or_retry`.
use stigmergy.Prelude.{
  ℕ, ◌≡◌, ◌≢◌, true, false, ◌&&◌, ◌⊎◌, inl, inr, some, arith, Bool-cases, if◌then◌else◌, ltb, ◌==◌,
}
use stigmergy.Kernel.Tenancy.{Session}
use stigmergy.Capture.Schema.{processing, Item, Db, is_processing}
use stigmergy.Capture.Queue.Base.{Result, ok, err, redelivered, not_owned, default_max_attempts}
use stigmergy.Capture.Queue.Settle.{
  owned, Landing, landed_row, finish_landed, Failure, failed_row, fail_or_retry,
}
use stigmergy.Capture.Queue.Row.{row_at}
use stigmergy.Capture.Queue.Fencing.{
  Holds, finish_landed_lem, fail_or_retry_lem, stale_refused, row_id,
}

-- The row runs under this attempt and this lease.
pub record IsHeld (a l : ℕ) (w : Item) : Type 0 where
  pub runs : w.status ≡ processing
  pub attempt : w.attempts ≡ a
  pub lease : w.lease_started_at ≡ some l

-- The row ended, waits, or was claimed again.
abbrev pub IsLost : ℕ → ℕ → Item → Type 0
IsLost a l w = (w.status ≢ processing) ⊎ (w.attempts ≢ a) ⊎ (w.lease_started_at ≢ some l)

-- A settlement that is accepted: its caller and the table have the new row, all other rows stay.
pub record IsAccepted (i : ℕ) (w : Item) (db : Db) (o : Result Item × Db) : Type 0 where
  pub told : o.0 ≡ ok w
  pub row : row_at i o.1 ≡ some w
  pub others : (j : ℕ) → j ≢ i → row_at j o.1 ≡ row_at j db

unowned_row : (i a l : ℕ) (w : Item) → w.id ≡ i → owned i a l w ≡ false → IsLost a l w
unowned_row i a l w same e = elim (Bool-cases (is_processing w.status)) [
  | inr f ↦ inl (λ q. ground arith)
  | inl f ↦ elim (Bool-cases (w.attempts == a)) [
    | inr g ↦ inr (inl (λ q. ground arith))
    | inl g ↦ inr (inr (λ q. ground arith))
  ]
]

owned-cases :
    (i a l : ℕ) (w : Item)
    → w.id ≡ i
    → ((owned i a l w ≡ true) × IsHeld a l w) ⊎ ((owned i a l w ≡ false) × IsLost a l w)
owned-cases i a l w same = elim (Bool-cases (owned i a l w)) [
  | inl e ↦ inl (e, record { runs = ground arith; attempt = ground arith; lease = ground arith })
  | inr e ↦ inr (e, unowned_row i a l w same e)
]

-- A claim is settled by its holder alone, for a row that the session sees in a valid table. Who
-- names the attempt and the lease under which the row runs can land it and can fail it, and no
-- other row changes; anyone else can do neither: they are told that the lease was redelivered while
-- the row runs, and its status otherwise, and the tables stay.
pub settled_by_holder :
    (c : Session) (now i a l : ℕ) (w : Item) (db : Db) (h : Holds c i w db) (v : Landing)
    (u : Failure)
    → let told = if is_processing w.status then redelivered else not_owned w.status in
      (IsHeld a l w
        × IsAccepted i (landed_row now v w) db (finish_landed c now i a l v db)
        × IsAccepted i
            (failed_row now (u.retryable && ltb a default_max_attempts) u w)
            db
            (fail_or_retry c now i a l u db))
      ⊎ (IsLost a l w
          × (finish_landed c now i a l v db ≡ (err told, db))
          × (fail_or_retry c now i a l u db ≡ (err told, db)))
settled_by_holder c now i a l w db h v u = elim (owned-cases i a l w (row_id i db w h.row)) [
  | inl (e, held) ↦
      let landing = finish_landed_lem c now i a l w db h v e in
      let failing = fail_or_retry_lem c now i a l w db h u e in
      inl (
        held,
        record { told = landing.0; row = landing.1; others = landing.2 },
        record { told = failing.0; row = failing.1; others = λ j ne. failing.4 j ne },
      )
  | inr (e, lost) ↦
      let stale = stale_refused c now i a l w db h v u e in inr (lost, stale.0, stale.1)
]
