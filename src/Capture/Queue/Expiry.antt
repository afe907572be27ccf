-- ===== src/Capture/Queue/Expiry.antt =====
-- What `release_expired` does to each row.
use stigmergy.Prelude.{
  ℕ, ◌≤◌, ◌≡◌, refl, ap, subst, sym, ◌∙◌, Bool, true, false, ◌&&◌, not, inl, inr, some, List, arith,
  In, AllDistinct, AllDistinct-eq, any-In, In-any, In-keep, keep-In, In-take, In-sort_by, &&-elim,
  max, Bool-cases, ltb, leb, ◌==◌, ==_iff, ==_refl, keep, any, find-some-In, if◌then◌else◌, ◌⊎◌,
  length, length-sort_by, length-keep, take_all, sort_by, sort_by-In,
}
use stigmergy.Kernel.Tenancy.{Session, visible}
use stigmergy.Capture.Schema.{Item, Db, is_processing}
use stigmergy.Capture.Queue.Base.{default_max_attempts, has_id, update}
use stigmergy.Capture.Queue.Claim.{
  expired, lease_expired, in_rows, requeued, failed_expired, release_expired, started_before,
}
use stigmergy.Capture.Queue.Invariant.{IsValid}
use stigmergy.Capture.Queue.Row.{row_at, row_at-update, changed}

abbrev pub has_row : List Item → Item → Bool
has_row rows r = any (λ w. w.id == r.id) rows

-- Rows of a table are told apart by their ids.
same_row :
    (items rows : List Item) (r : Item)
    → AllDistinct (λ (z : Item). z.id) items
    → ((w : Item) → In w rows → In w items)
    → In r items
    → has_row rows r ≡ true
    → In r rows
same_row items rows r ids sub m h =
    let (w, inside, same) = any-In (λ (w : Item). w.id == r.id) rows h in
    subst (λ (z : Item). In z rows)
      (AllDistinct-eq (λ (z : Item). z.id) items w r ids (sub w inside) m ((==_iff _ _).0 same))
      inside

has_row-keep :
    (items rows : List Item) (r : Item) (p : Item → Bool)
    → AllDistinct (λ (z : Item). z.id) items
    → ((w : Item) → In w rows → In w items)
    → In r items
    → has_row (keep p rows) r ≡ has_row rows r && p r
has_row-keep items rows r p ids sub m = elim (Bool-cases (has_row (keep p rows) r)) [
  | inl e ↦
      let kept = same_row items (keep p rows) r ids (λ w n. sub w (In-keep p w rows n).0) m e in
      let (inside, good) = In-keep p r rows kept in
      let there : has_row rows r ≡ true =
        In-any (λ (w : Item). w.id == r.id) r rows inside (==_refl r.id) in
      rw (e, there, good)
  | inr e ↦ elim (Bool-cases (has_row rows r && p r)) [
    | inr h ↦ rw (e, h)
    | inl h ↦
        let (there, good) = &&-elim (has_row rows r) (p r) h in
        let inside = same_row items rows r ids sub m there in
        let again : has_row (keep p rows) r ≡ true =
          In-any (λ (w : Item). w.id == r.id) r (keep p rows) (keep-In p r rows inside good)
            (==_refl r.id) in
        absurd (cc (again, e))
  ]
]

-- What becomes of a row whose lease ran out: it is queued again after at most two attempts.
abbrev pub expiry : ℕ → Item → Item
expiry now r = if leb r.attempts default_max_attempts then requeued now r else failed_expired now r

module _ (c : Session) (now timeout : ℕ) (locked : ℕ → Bool) (batch : ℕ) (db : Db) where
  expired-holds :
      (r : Item)
      → In r (expired c now timeout locked batch db)
      → In r db.items
        × (visible c r.tenant_id ≡ true)
        × (is_processing r.status ≡ true)
        × (lease_expired now timeout r ≡ true)
        × (locked r.id ≡ false)
  unfolding expired
  expired-holds r m =
      let (inside, good) =
        In-keep _ r db.items (In-sort_by started_before r _ (In-take (max 1 batch) r _ m)) in
      (
        inside,
        ground (arith, good),
        ground (arith, good),
        ground (arith, good),
        ground (arith, good),
      )

  expired-In :
      (r : Item)
      → In r db.items
      → length db.items ≤ batch
      → (visible c r.tenant_id
          && ((is_processing r.status && lease_expired now timeout r) && not (locked r.id)))
        ≡ true
      → In r (expired c now timeout locked batch db)
  unfolding expired
  expired-In r m large good =
      let kept =
        keep
          (λ (w : Item).
            visible c w.tenant_id
            && ((is_processing w.status && lease_expired now timeout w) && not (locked w.id)))
          db.items in
      let few : length (sort_by started_before kept) ≤ max 1 batch =
        omega (arith, length-sort_by started_before kept, length-keep _ db.items, large) in
      subst (λ (z : List Item). In r z)
        (sym (take_all (max 1 batch) (sort_by started_before kept) few))
        (sort_by-In started_before r kept (keep-In _ r db.items m good))

  release_row :
      (i : ℕ) (r : Item)
      → row_at i db ≡ some r
      → let rows = expired c now timeout locked batch db in
        row_at i (release_expired c now timeout locked batch db).1
        ≡ some (
            changed c
              (in_rows (keep (λ w. ltb default_max_attempts w.attempts) rows))
              (failed_expired now)
              (changed c
                (in_rows (keep (λ w. leb w.attempts default_max_attempts) rows))
                (requeued now)
                r))
  unfolding release_expired
  release_row i r found =
      let rows = expired c now timeout locked batch db in
      let queued_again =
        update c (in_rows (keep (λ w. leb w.attempts default_max_attempts) rows)) (requeued now)
          db in
      row_at-update i c _ (failed_expired now) queued_again (λ w. unfold failed_expired in refl)
      ∙ rw (
        row_at-update i c (in_rows (keep (λ w. leb w.attempts default_max_attempts) rows))
            (requeued now) db (λ w. unfold requeued in refl),
        found,
      )

  taken :
      (p : Item → Bool) (f : Item → Item) (r : Item)
      → visible c r.tenant_id ≡ true
      → p r ≡ true
      → changed c p f r ≡ f r
  taken p f r seen h = rw (seen, h)

  left : (p : Item → Bool) (f : Item → Item) (r : Item) → p r ≡ false → changed c p f r ≡ r
  left p f r h = ground (arith, h)

  -- What the two updates make of a row, by whether it was taken.
  settled :
      (rows : List Item) (r : Item)
      → AllDistinct (λ (z : Item). z.id) db.items
      → ((w : Item) → In w rows → In w db.items)
      → In r db.items
      → (has_row rows r ≡ true → (visible c r.tenant_id ≡ true) × (is_processing r.status ≡ true))
      → changed c
          (in_rows (keep (λ w. ltb default_max_attempts w.attempts) rows))
          (failed_expired now)
          (changed c
            (in_rows (keep (λ w. leb w.attempts default_max_attempts) rows))
            (requeued now)
            r)
        ≡ (if has_row rows r then expiry now r else r)
  settled rows r ids sub m open_row =
      let again = keep (λ (w : Item). leb w.attempts default_max_attempts) rows in
      let gone = keep (λ (w : Item). ltb default_max_attempts w.attempts) rows in
      let few = has_row-keep db.items rows r (λ w. leb w.attempts default_max_attempts) ids sub m in
      let many =
        has_row-keep db.items rows r (λ w. ltb default_max_attempts w.attempts) ids sub m in
      elim (Bool-cases (has_row rows r)) [
        | inr e ↦
            ap (changed c (in_rows gone) (failed_expired now))
              (left (in_rows again) (requeued now) r (ground (arith, few, e)))
            ∙ left (in_rows gone) (failed_expired now) r (ground (arith, many, e))
            ∙ rw e
        | inl e ↦
            let (seen, busy) = open_row e in
            elim (Bool-cases (leb r.attempts default_max_attempts)) [
              | inl small ↦
                  ap (changed c (in_rows gone) (failed_expired now)) (
                    taken (in_rows again) (requeued now) r seen
                      (ground (arith, few, e, small, busy)))
                  ∙ left (in_rows gone) (failed_expired now) (requeued now r)
                      (unfold requeued in ground arith)
                  ∙ rw (e, small)
              | inr large ↦
                  ap (changed c (in_rows gone) (failed_expired now))
                    (left (in_rows again) (requeued now) r (ground (arith, few, large)))
                  ∙ taken (in_rows gone) (failed_expired now) r seen
                      (ground (arith, many, e, large, busy))
                  ∙ rw (e, large)
            ]
      ]

  -- A row is released only if the session sees it, its processing lease ran out and no other
  -- transaction holds it: then it is queued again, or fails if it was attempted more than twice. Any
  -- other row stays as it is.
  pub release_expired_lem :
      (i : ℕ) (r : Item)
      → IsValid db
      → row_at i db ≡ some r
      → ((row_at i (release_expired c now timeout locked batch db).1 ≡ some r)
          ⊎ ((visible c r.tenant_id ≡ true)
              × (is_processing r.status ≡ true)
              × (lease_expired now timeout r ≡ true)
              × (locked r.id ≡ false)
              × (row_at i (release_expired c now timeout locked batch db).1 ≡ some (expiry now r))))
  release_expired_lem i r v found =
      let rows = expired c now timeout locked batch db in
      let (m, here) = find-some-In (has_id i) r db.items found in
      let member = same_row db.items rows r v.ids (λ w n. (expired-holds w n).0) m in
      let after =
        release_row i r found
        ∙ ap some (
            settled rows r v.ids (λ w n. (expired-holds w n).0) m
              (λ h. let facts = expired-holds r (member h) in (facts.1, facts.2))) in
      elim (Bool-cases (has_row rows r)) [
        | inr e ↦ inl (after ∙ rw e)
        | inl e ↦
            let (n, seen, busy, old, unheld) = expired-holds r (member e) in
            inr (seen, busy, old, unheld, after ∙ rw e)
      ]

  -- A batch as large as the table releases every such row: a row that the session sees, whose
  -- processing lease ran out and that no other transaction holds, is queued again after at most two
  -- attempts and fails after more.
  pub release_expired-released :
      (i : ℕ) (r : Item)
      → IsValid db
      → row_at i db ≡ some r
      → length db.items ≤ batch
      → visible c r.tenant_id ≡ true
      → is_processing r.status ≡ true
      → lease_expired now timeout r ≡ true
      → locked r.id ≡ false
      → row_at i (release_expired c now timeout locked batch db).1 ≡ some (expiry now r)
  release_expired-released i r v found large seen busy old unheld =
      let rows = expired c now timeout locked batch db in
      let (m, here) = find-some-In (has_id i) r db.items found in
      let picked : In r rows = expired-In r m large (ground (arith, seen, busy, old, unheld)) in
      let e : has_row rows r ≡ true =
        In-any (λ (w : Item). w.id == r.id) r rows picked (==_refl r.id) in
      release_row i r found
      ∙ ap some (settled rows r v.ids (λ w n. (expired-holds w n).0) m (λ h. (seen, busy)) ∙ rw e)
