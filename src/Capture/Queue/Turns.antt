-- ===== src/Capture/Queue/Turns.antt =====
-- Which row a claim takes, and the tenants' turns.
use stigmergy.Prelude.{
  ℕ, ◌≡◌, ◌≢◌, refl, sym, ap, ◌∙◌, Bool, true, false, ◌&&◌, not, inl, inr, Option, none, some, List,
  [], ◌∷◌, arith, In, Bool-cases, Option-cases, ◌==◌, &&-elim, &&-intro, max, keep, keep-In,
  sort_by-In, IsWeakOrder, IsSorted, sort_by-IsSorted, find-update_rows, find-some-In, subst,
}
use stigmergy.Kernel.Tenancy.{Session, visible}
use stigmergy.Capture.Schema.{Item, Tenant, Db}
use stigmergy.Capture.Queue.Claim.{
  pick, claimed, claim_picked, claim_next, claimable, first, picked_before, opt_before, served_at,
  tenant_of, tenant_active,
}
use stigmergy.Capture.Queue.Invariant.{IsValid}
use stigmergy.Capture.Queue.Steps.{pick-In, claim_next-IsValid}
use stigmergy.Capture.Queue.Fencing.{claim_next_row}

picked_before_asym :
    (db : Db) (a b : Item) → picked_before db a b ≡ true → picked_before db b a ≡ false
picked_before_asym db a b h = ground arith

picked_before_cotrans :
    (db : Db) (a b d : Item)
    → picked_before db b a ≡ false
    → picked_before db d b ≡ false
    → picked_before db d a ≡ false
picked_before_cotrans db a b d h k = ground arith

picked_before-IsWeakOrder : (db : Db) → IsWeakOrder (picked_before db)
picked_before-IsWeakOrder db = record {
  asym = picked_before_asym db;
  cotrans = picked_before_cotrans db;
}

module _ (c : Session) (now : ℕ) (locked : ℕ → Bool) (db : Db) where
  abbrev may : Item → Bool
  may w = claimable c now db w && not (locked w.id)

  first_least :
      (rs : List Item) (r w : Item)
      → IsSorted (picked_before db) rs
      → first rs ≡ some r
      → In w rs
      → picked_before db w r ≡ false
  first_least [] r w s e m = absurd m
  first_least (x ∷ xs) r w s e (inl q) =
      let same : w ≡ r = q ∙ cc e in subst (λ z. picked_before db z r ≡ false) (sym same) (itself r)
    where
      itself : (z : Item) → picked_before db z z ≡ false
      itself z = ground arith
  first_least (x ∷ xs) r w s e (inr m) =
      let same : x ≡ r = cc e in subst (λ z. picked_before db w z ≡ false) same (s.0 w m)

  first_some : (rs : List Item) (w : Item) → In w rs → first rs ≢ none
  first_some [] w m e = m
  first_some (x ∷ xs) w m e = cc

  pub pick_least :
      (r w : Item)
      → pick c now locked db ≡ some r
      → In w db.items
      → may w ≡ true
      → picked_before db w r ≡ false
  unfolding pick
  pick_least r w e m h =
      first_least _ r w (sort_by-IsSorted _ (picked_before-IsWeakOrder db) (keep may db.items)) e
        (sort_by-In _ w (keep may db.items) (keep-In may w db.items m h))

  pub pick-none : (w : Item) → pick c now locked db ≡ none → In w db.items → may w ≡ false
  unfolding pick
  pick-none w e m = elim (Bool-cases (may w)) [
    | inl h ↦
        absurd (first_some _ w (sort_by-In _ w (keep may db.items) (keep-In may w db.items m h)) e)
    | inr h ↦ h
  ]

abbrev served_tenant : Db → ℕ → Option ℕ
served_tenant db t = elim (tenant_of t db) [ none ↦ none | some w ↦ w.last_claimed_at ]

claim_picked_serves :
    (c : Session) (clock budget : ℕ) (p : Item) (db : Db)
    → tenant_active db p ≡ true
    → served_tenant (claim_picked c clock budget (some p) db).1 p.tenant_id ≡ some clock
unfolding claim_picked
claim_picked_serves c clock budget p db live = elim (Option-cases (tenant_of p.tenant_id db)) [
  | inl e ↦ absurd (cc (rw (e, tenant_active) at live))
  | inr (w, e) ↦
      let mine = (find-some-In (λ (z : Tenant). z.id == p.tenant_id) w db.tenants e).1 in
      let moved =
        find-update_rows (λ (z : Tenant). z.id == p.tenant_id) (λ z. z.id == p.tenant_id)
          (λ z. record z { last_claimed_at = some clock }) (λ z. refl) db.tenants in
      rw (served_tenant, moved, e, mine)
]

module _ (c : Session) (now clock : ℕ) (locked : ℕ → Bool) (budget : ℕ) (db : Db) where
  -- A claim takes a claimable row that no other transaction holds, and no such row comes before it:
  -- its tenant was served longest ago, and it is that tenant's oldest.
  pub claim_next-first :
      (r : Item)
      → IsValid db
      → (claim_next c now clock locked budget db).0 ≡ some r
      → (p : Item) × In p db.items
        × (r ≡ claimed clock (max 1 budget) p)
        × (claimable c now db p ≡ true)
        × (locked p.id ≡ false)
        × ((w : Item)
            → In w db.items
            → claimable c now db w ≡ true
            → locked w.id ≡ false
            → picked_before db w p ≡ false)
  claim_next-first r v e =
      let (p, picked, took, holds) = claim_next_row c now clock locked budget r db v e in
      let (m, free, unlocked) = pick-In c now locked db p picked in
      (
        p,
        m,
        took,
        free,
        unlocked,
        λ w n f u.
            pick_least c now locked db p w picked n
              (&&-intro (claimable c now db w) (not (locked w.id)) f (ap not u)),
      )

  -- A claim comes back empty only if every row is unclaimable or held by another transaction, and
  -- then it changes nothing.
  claim_next-none :
      (claim_next c now clock locked budget db).0 ≡ none
      → ((claim_next c now clock locked budget db).1 ≡ db)
        × ((w : Item) → In w db.items → (claimable c now db w && not (locked w.id)) ≡ false)
  unfolding claim_next claim_picked
  claim_next-none e = elim (Option-cases (pick c now locked db)) [
    | inl n ↦ (rw (n, claim_next, claim_picked), λ w. pick-none c now locked db w n)
    | inr (p, q) ↦ absurd (cc (rw (q, claim_next, claim_picked) at e))
  ]

  claim_serves :
      (r z : Item)
      → IsValid db
      → (claim_next c now clock locked budget db).0 ≡ some r
      → z.tenant_id ≡ r.tenant_id
      → served_at (claim_next c now clock locked budget db).1 z ≡ some clock
  unfolding claim_next
  claim_serves r z v e t =
      let (p, picked, took, holds) = claim_next_row c now clock locked budget r db v e in
      let (m, free, unlocked) = pick-In c now locked db p picked in
      let db' = (claim_next c now clock locked budget db).1 in
      let live : tenant_active db p ≡ true =
        (&&-elim (visible c p.tenant_id) _ (&&-elim _ _ free).0).1 in
      let home : z.tenant_id ≡ p.tenant_id =
        t ∙ unfold claimed in ap (λ (i : Item). i.tenant_id) took in
      ap (served_tenant db') home
      ∙ rw (picked, claim_next) (claim_picked_serves c clock (max 1 budget) p db live)

  -- Tenants take turns: right after a claim for one tenant, a second claim does not serve that tenant
  -- while another tenant that was served before that time has claimable work.
  pub turns :
      (r : Item) (db' : Db)
      → IsValid db
      → claim_next c now clock locked budget db ≡ (some r, db')
      → (now' clock' : ℕ) (locked' : ℕ → Bool) (budget' : ℕ) (next w : Item)
      → (claim_next c now' clock' locked' budget' db').0 ≡ some next
      → In w db'.items
      → claimable c now' db' w ≡ true
      → locked' w.id ≡ false
      → opt_before (served_at db' w) (some clock) ≡ true
      → next.tenant_id ≢ r.tenant_id
  turns r db' v e now' clock' locked' budget' next w e' m f u early same =
      let after : (claim_next c now clock locked budget db).1 ≡ db' = ap (λ o. o.1) e in
      let got : (claim_next c now clock locked budget db).0 ≡ some r = ap (λ o. o.0) e in
      let valid : IsValid db' =
        subst IsValid after (claim_next-IsValid c db v now clock locked budget) in
      let (p, picked, took, holds) =
        claim_next_row c now' clock' locked' budget' next db' valid e' in
      let home : p.tenant_id ≡ r.tenant_id =
        unfold claimed in sym (ap (λ (i : Item). i.tenant_id) took) ∙ same in
      let served =
        subst (λ (z : Db). served_at z p ≡ some clock) after (claim_serves r p v got home) in
      absurd (
        ground (
          arith,
          served,
          pick_least c now' locked' db' p w picked m
              (&&-intro (claimable c now' db' w) (not (locked' w.id)) f (ap not u)),
        ))
