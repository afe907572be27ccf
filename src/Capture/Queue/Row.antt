-- ===== src/Capture/Queue/Row.antt =====
-- The row with a given id, and what an UPDATE makes of it.
use stigmergy.Prelude.{
  ℕ, ◌≡◌, sym, ap, ◌∙◌, Bool, true, ◌&&◌, inl, inr, Option, some, List, [], ◌∷◌, ◌++◌, arith, find,
  find-update_rows, ◌==◌, ==_iff, ==_refl, if◌then◌else◌, Bool-cases, Option-cases, In, AllDistinct,
  AllDistinct-eq, find-some-In, &&-elim, find-none-All, All-In,
}
use mathlib.Core.Option
use stigmergy.Kernel.Tenancy.{Session, visible}
use stigmergy.Capture.Schema.{Item, Db}
use stigmergy.Capture.Queue.Base.{update, select, has_id}

abbrev pub row_at : ℕ → Db → Option Item
row_at i db = find (has_id i) db.items

abbrev pub changed : Session → (Item → Bool) → (Item → Item) → Item → Item
changed c p f r = if visible c r.tenant_id && p r then f r else r

pub row_at-update :
    (i : ℕ) (c : Session) (p : Item → Bool) (f : Item → Item) (db : Db)
    → ((r : Item) → (f r).id ≡ r.id)
    → row_at i (update c p f db) ≡ Option.map (changed c p f) (row_at i db)
row_at-update i c p f db same =
    find-update_rows (has_id i) _ f (λ r. ap (λ n. n == i) (same r)) db.items

find-append :
    (p : Item → Bool) (xs : List Item) (y r : Item)
    → find p xs ≡ some r
    → find p (xs ++ y ∷ []) ≡ some r
find-append p [] y r h = absurd (ground arith)
find-append p (x ∷ xs) y r h = elim (Bool-cases (p x)) [
  | inl e ↦ rw e (rw e at h)
  | inr e ↦ rw e (find-append p xs y r (rw e at h))
]

pub row_at-append :
    (i : ℕ) (db : Db) (y r : Item) (w : ℕ)
    → row_at i db ≡ some r
    → row_at i (record db { items = db.items ++ y ∷ []; wakes = w }) ≡ some r
row_at-append i db y r w h = find-append (has_id i) db.items y r h

-- What a SELECT by a condition that names an id finds is the row of that id.
pub select_row :
    (c : Session) (p : Item → Bool) (i : ℕ) (db : Db) (r w : Item)
    → AllDistinct (λ (z : Item). z.id) db.items
    → ((z : Item) → p z ≡ true → z.id ≡ i)
    → select c p db ≡ some r
    → row_at i db ≡ some w
    → r ≡ w
select_row c p i db r w d names e h =
    let (m, q) = find-some-In _ r db.items e in
    let (n, k) = find-some-In _ w db.items h in
    AllDistinct-eq (λ (z : Item). z.id) db.items r w d m n
      (names r (&&-elim (visible c r.tenant_id) (p r) q).1 ∙ sym ((==_iff w.id i).0 k))

-- A SELECT finds the row that meets it.
pub select_found :
    (c : Session) (p : Item → Bool) (i : ℕ) (db : Db) (w : Item)
    → AllDistinct (λ (z : Item). z.id) db.items
    → ((z : Item) → p z ≡ true → z.id ≡ i)
    → row_at i db ≡ some w
    → visible c w.tenant_id ≡ true
    → p w ≡ true
    → select c p db ≡ some w
select_found c p i db w d names h seen met = elim (Option-cases (select c p db)) [
  | inl e ↦ absurd (
      ground
        (arith, All-In _ w db.items (find-none-All _ db.items e) (find-some-In _ w db.items h).0))
  | inr (r, e) ↦ e ∙ ap some (select_row c p i db r w d names e h)
]

-- A row of the table is the row of its id.
pub row_at-In :
    (w : Item) (db : Db)
    → AllDistinct (λ (z : Item). z.id) db.items
    → In w db.items
    → row_at w.id db ≡ some w
row_at-In w db d m = elim (Option-cases (row_at w.id db)) [
  | inl e ↦
      absurd (cc (All-In _ w db.items (find-none-All (has_id w.id) db.items e) m, ==_refl w.id))
  | inr (r, e) ↦
      let (n, k) = find-some-In (has_id w.id) r db.items e in
      e ∙ ap some (AllDistinct-eq (λ (z : Item). z.id) db.items r w d n m ((==_iff r.id w.id).0 k))
]
