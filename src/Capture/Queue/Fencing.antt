-- ===== src/Capture/Queue/Fencing.antt =====
-- The fence of a claim: its attempt number and its lease time.
use stigmergy.Prelude.{
  ℕ, ◌+◌, ◌≡◌, ◌≢◌, refl, sym, ap, ◌∙◌, Bool, true, false, ◌&&◌, ◌⊎◌, inl, inr, some, arith, In,
  ◌==◌, ==_iff, ==_refl, &&-elim, &&-intro, Bool-cases, Option-cases, AllDistinct, subst,
  if◌then◌else◌, ltb, max, find-some-In,
}
use stigmergy.Kernel.Tenancy.{Session, visible}
use stigmergy.Capture.Schema.{queued, landed, failed, Item, Db, is_processing, seconds}
use stigmergy.Capture.Queue.Base.{
  Error, ok, err, default_max_attempts, retry_delay_s, update, select, has_id, redelivered,
  not_owned,
}
use stigmergy.Capture.Queue.Claim.{claim_next, claim_picked, claimed, pick}
use stigmergy.Capture.Queue.Settle.{
  owned, settle, lost_lease, Landing, landed_row, finish_landed, Failure, failed_row, fail_or_retry,
}
use stigmergy.Capture.Queue.Invariant.{IsValid, finish_landed-IsValid}
use stigmergy.Capture.Queue.Steps.{pick-In, claim_next-IsValid}
use stigmergy.Capture.Queue.Row.{
  row_at, changed, row_at-update, row_at-In, select_row, select_found,
}

pub row_id : (i : ℕ) (db : Db) (w : Item) → row_at i db ≡ some w → w.id ≡ i
row_id i db w h = (==_iff w.id i).0 (find-some-In (has_id i) w db.items h).1

owned_id : (i a l : ℕ) (r : Item) → owned i a l r ≡ true → r.id ≡ i
owned_id i a l r h = (==_iff r.id i).0 (&&-elim (r.id == i) _ h).0

-- Everything that the holder of a row's id is told and sees, in one record of the facts.
pub record Holds (c : Session) (i : ℕ) (w : Item) (db : Db) : Type 0 where
  pub valid : IsValid db
  pub row : row_at i db ≡ some w
  pub seen : visible c w.tenant_id ≡ true

-- The error that a holder of a lost claim is given.
abbrev pub refusal : Item → Error
refusal w = if is_processing w.status then redelivered else not_owned w.status

module _ (c : Session) (i a l : ℕ) (w : Item) (db : Db) (h : Holds c i w db) where
  settle_ok :
      (f : Item → Item)
      → owned i a l w ≡ true
      → settle c i a l f db ≡ (ok (f w), update c (owned i a l) f db)
  unfolding settle
  settle_ok f mine =
      rw
        (select_found c (owned i a l) i db w h.valid.ids (owned_id i a l) h.row h.seen mine, settle)

  settle_refused :
      (f : Item → Item) → owned i a l w ≡ false → settle c i a l f db ≡ (err (refusal w), db)
  unfolding lost_lease settle
  settle_refused f gone = elim (Option-cases (select c (owned i a l) db)) [
    | inl e ↦ rw (
      e,
      settle,
      lost_lease,
      select_found c (has_id i) i db w h.valid.ids (λ z k. (==_iff z.id i).0 k) h.row h.seen
          ((==_iff w.id i).1 (row_id i db w h.row)),
    )
    | inr (r, e) ↦ absurd (
        ground (
          arith,
          select_row c (owned i a l) i db r w h.valid.ids (owned_id i a l) e h.row,
          &&-elim (visible c r.tenant_id) (owned i a l r) (find-some-In _ r db.items e).1,
        ))
  ]

  settled_row :
      (f : Item → Item)
      → ((r : Item) → (f r).id ≡ r.id)
      → owned i a l w ≡ true
      → row_at i (update c (owned i a l) f db) ≡ some (f w)
  settled_row f same mine =
      row_at-update i c (owned i a l) f db same
      ∙ rw (h.row, &&-intro (visible c w.tenant_id) (owned i a l w) h.seen mine)

-- An update under a fence leaves every row of another id as it is.
fence_others :
    (c : Session) (i a l j : ℕ) (f : Item → Item) (db : Db)
    → ((r : Item) → (f r).id ≡ r.id)
    → j ≢ i
    → row_at j (update c (owned i a l) f db) ≡ row_at j db
fence_others c i a l j f db same ne =
    row_at-update j c (owned i a l) f db same ∙ elim (Option-cases (row_at j db)) [
      | inl e ↦ rw e
      | inr (r, e) ↦ rw e (ap some (outside r (row_id j db r e)))
    ]
  where
    outside : (r : Item) → r.id ≡ j → changed c (owned i a l) f r ≡ r
    outside r e = elim (Bool-cases (visible c r.tenant_id && owned i a l r)) [
      | inl m ↦
          absurd
            (ne (sym e ∙ owned_id i a l r (&&-elim (visible c r.tenant_id) (owned i a l r) m).1))
      | inr m ↦ rw m
    ]

module _ (c : Session) (now i a l : ℕ) (w : Item) (db : Db) (h : Holds c i w db) where
  -- A holder of a live claim lands it: the row becomes the landed row with the capture's commit, and
  -- every other row stays.
  pub finish_landed_lem :
      (v : Landing)
      → owned i a l w ≡ true
      → ((finish_landed c now i a l v db).0 ≡ ok (landed_row now v w))
        × (row_at i (finish_landed c now i a l v db).1 ≡ some (landed_row now v w))
        × ((j : ℕ) → j ≢ i → row_at j (finish_landed c now i a l v db).1 ≡ row_at j db)
  unfolding finish_landed
  finish_landed_lem v mine =
      let f = landed_row now v in
      let same : (r : Item) → (f r).id ≡ r.id = λ r. refl in
      rw (settle_ok c i a l w db h f mine)
        (refl, settled_row c i a l w db h f same mine, λ j ne. fence_others c i a l j f db same ne)

  -- A holder of a live claim that failed: a retryable failure of the first attempt goes back to the
  -- queue, due ten seconds later; any other is final. Every other row stays.
  pub fail_or_retry_lem :
      (v : Failure)
      → owned i a l w ≡ true
      → let retry = v.retryable && ltb a default_max_attempts in
        ((fail_or_retry c now i a l v db).0 ≡ ok (failed_row now retry v w))
        × (row_at i (fail_or_retry c now i a l v db).1 ≡ some (failed_row now retry v w))
        × ((failed_row now retry v w).status ≡ (if retry then queued else failed))
        × ((failed_row now retry v w).next_attempt_at
            ≡ (if retry then now + seconds retry_delay_s else w.next_attempt_at))
        × ((j : ℕ) → j ≢ i → row_at j (fail_or_retry c now i a l v db).1 ≡ row_at j db)
  unfolding fail_or_retry
  fail_or_retry_lem v mine =
      let f = failed_row now (v.retryable && ltb a default_max_attempts) v in
      let same : (r : Item) → (f r).id ≡ r.id = λ r. refl in
      rw (settle_ok c i a l w db h f mine) (
        refl,
        settled_row c i a l w db h f same mine,
        refl,
        refl,
        λ j ne. fence_others c i a l j f db same ne,
      )

  -- Whoever does not hold the row's present claim can neither land nor fail it: both are refused
  -- with the reason, and the tables stay as they are.
  pub stale_refused :
      (v : Landing) (u : Failure)
      → owned i a l w ≡ false
      → (finish_landed c now i a l v db ≡ (err (refusal w), db))
        × (fail_or_retry c now i a l u db ≡ (err (refusal w), db))
  unfolding finish_landed fail_or_retry
  stale_refused v u gone =
      (settle_refused c i a l w db h _ gone, settle_refused c i a l w db h _ gone)

module _ (c : Session) (now i a l : ℕ) (w : Item) (db : Db) (h : Holds c i w db) where
  pub landed_Holds :
      (v : Landing)
      → owned i a l w ≡ true
      → Holds c i (landed_row now v w) (finish_landed c now i a l v db).1
  landed_Holds v mine = record {
    valid = finish_landed-IsValid c db h.valid now i a l v;
    row = (finish_landed_lem c now i a l w db h v mine).1;
    seen = unfold landed_row in h.seen;
  }

  -- A claim is settled once: after its holder landed it, the same claim can neither land nor fail
  -- it again, and the tables stay as the landing left them.
  pub landed_once :
      (v : Landing)
      → owned i a l w ≡ true
      → (now' : ℕ) (v' : Landing) (u : Failure)
      → let db' = (finish_landed c now i a l v db).1 in
        (finish_landed c now' i a l v' db' ≡ (err (not_owned landed), db'))
        × (fail_or_retry c now' i a l u db' ≡ (err (not_owned landed), db'))
  unfolding landed_row
  landed_once v mine now' v' u =
      stale_refused c now' i a l (landed_row now v w) (finish_landed c now i a l v db).1
        (landed_Holds v mine) v' u (ground arith)

claim_picked_row :
    (c : Session) (clock budget : ℕ) (w : Item) (db : Db)
    → AllDistinct (λ (z : Item). z.id) db.items
    → In w db.items
    → visible c w.tenant_id ≡ true
    → row_at w.id (claim_picked c clock budget (some w) db).1 ≡ some (claimed clock budget w)
unfolding claim_picked
claim_picked_row c clock budget w db d m seen =
    row_at-update w.id c (has_id w.id) (claimed clock budget) db (λ z. refl)
    ∙ rw (row_at-In w db d m, seen, ==_refl w.id)

-- A claim takes a picked row, and the row of its id is then the claimed one.
pub claim_next_row :
    (c : Session) (now clock : ℕ) (locked : ℕ → Bool) (budget : ℕ) (r : Item) (db : Db)
    → IsValid db
    → (claim_next c now clock locked budget db).0 ≡ some r
    → (w : Item) × (pick c now locked db ≡ some w)
      × (r ≡ claimed clock (max 1 budget) w)
      × Holds c r.id r (claim_next c now clock locked budget db).1
unfolding claim_next claim_picked
claim_next_row c now clock locked budget r db v e = elim (Option-cases (pick c now locked db)) [
  | inl n ↦ absurd (cc (rw (n, claim_next, claim_picked) at e))
  | inr (w, p) ↦
      let named : some (claimed clock (max 1 budget) w) ≡ some r =
        rw (p, claim_next, claim_picked) at e in
      let took : claimed clock (max 1 budget) w ≡ r = cc named in
      let (m, may, free) = pick-In c now locked db w p in
      let seen = (&&-elim (visible c w.tenant_id) _ (&&-elim _ _ may).0).0 in
      (
        w,
        p,
        sym took,
        subst (λ z. Holds c z.id z (claim_next c now clock locked budget db).1) took
            (record {
              valid = claim_next-IsValid c db v now clock locked budget;
              row = rw (p, claim_next) (claim_picked_row c clock (max 1 budget) w db v.ids m seen);
              seen = seen;
            }),
      )
]

-- After a claim, the row is held under the claim's own attempt number and lease: with these the
-- landing is accepted, and with any other attempt or lease both settlements are told that the lease
-- was redelivered and change nothing.
pub claim_fences :
    (c : Session) (now clock : ℕ) (locked : ℕ → Bool) (budget : ℕ) (r : Item) (db : Db)
    → IsValid db
    → (claim_next c now clock locked budget db).0 ≡ some r
    → (a l now' : ℕ) (v : Landing) (u : Failure) → ((a ≢ r.attempts) ⊎ (l ≢ clock))
    → let db' = (claim_next c now clock locked budget db).1 in
      ((finish_landed c now' r.id r.attempts clock v db').0 ≡ ok (landed_row now' v r))
      × ((finish_landed c now' r.id a l v db' ≡ (err redelivered, db'))
          × (fail_or_retry c now' r.id a l u db' ≡ (err redelivered, db')))
claim_fences c now clock locked budget r db v0 e a l now' v u other =
    let (w, p, took, holds) = claim_next_row c now clock locked budget r db v0 e in
    let db' = (claim_next c now clock locked budget db).1 in
    let state : (is_processing r.status ≡ true) × (r.lease_started_at ≡ some clock) =
      unfold claimed in ground (arith, took) in
    (
      (finish_landed_lem c now' r.id r.attempts clock r db' holds v (ground (arith, state))).0,
      rw (← ap (λ b. if b then redelivered else not_owned r.status) state.0)
          (stale_refused c now' r.id a l r db' holds v u (ground (arith, state, other))),
    )
