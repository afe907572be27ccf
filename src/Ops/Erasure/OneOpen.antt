-- ===== src/Ops/Erasure/OneOpen.antt =====
-- The open requests for one layer of one tenant, when a request is made and when work is claimed.
use stigmergy.Prelude.{
  ℕ, ◌≡◌, refl, sym, ap, ◌∙◌, String, Bool, true, false, ◌&&◌, ◌||◌, not, inl, inr, Option, some,
  List, [], ◌∷◌, ◌++◌, arith, ==_iff, str_eq, eq_iff, if◌then◌else◌, any, any-false, In, In-keep,
  In-sort_by, All, All-imp, All-append, AllDistinct, AllDistinct-eq, AllDistinct-update_rows,
  AllDistinct-snoc, codes, update_rows, &&-elim, Bool-cases, Option-cases,
}
use stigmergy.Kernel.Tenancy.{Session, visible}
use stigmergy.Kernel.Layers.{is_layer_name}
use stigmergy.Capture.Schema.{is_open}
use stigmergy.Ops.Erasure.{
  Request, open_for, new_request, request, has_id, update, exhausted, given_up, give_up, started,
  oldest_due, due, claim, older, first,
}

-- not two open requests for one layer of one tenant
pub record Apart (r w : Request) : Type 0 where
  pub apart :
      is_open r.status ≡ true
      → is_open w.status ≡ true
      → r.tenant_id ≡ w.tenant_id
      → r.layer ≡ w.layer
      → ⊥

abbrev pub IsOneOpen : List Request → Type 0
IsOneOpen [] = Unit
IsOneOpen (r ∷ rs) = All (Apart r) rs × IsOneOpen rs

pub record IsValid (rows : List Request) : Type 0 where
  pub one_open : IsOneOpen rows
  pub ids : AllDistinct (λ (r : Request). r.id) rows

-- What an UPDATE may make of a row: it opens no closed one.
pub record Moves (r w : Request) : Type 0 where
  pub opens_none : is_open w.status ≡ true → is_open r.status ≡ true
  pub same_tenant : w.tenant_id ≡ r.tenant_id
  pub same_layer : w.layer ≡ r.layer
  pub same_id : w.id ≡ r.id

stays : (r : Request) → Moves r r
stays r = record { opens_none = λ h. h; same_tenant = refl; same_layer = refl; same_id = refl }

moved-Apart : (r w r' w' : Request) → Moves r r' → Moves w w' → Apart r w → Apart r' w'
moved-Apart r w r' w' m n a = record {
  apart = λ h k t l.
      a.apart (m.opens_none h) (n.opens_none k) (sym m.same_tenant ∙ t ∙ n.same_tenant)
        (sym m.same_layer ∙ l ∙ n.same_layer);
}

module _ (p : Request → Bool) (f : Request → Request) where
  moved : (r : Request) → (p r ≡ true → Moves r (f r)) → Moves r (if p r then f r else r)
  moved r h = elim (Bool-cases (p r)) [ inl e ↦ rw e (h e) | inr e ↦ rw e (stays r) ]

  Apart-update :
      (r r' : Request) (rows : List Request)
      → Moves r r'
      → ((a : Request) → In a rows → p a ≡ true → Moves a (f a))
      → All (Apart r) rows
      → All (Apart r') (update_rows p f rows)
  Apart-update r r' [] m step h = tt
  Apart-update r r' (x ∷ xs) m step h = (
    moved-Apart r x r' _ m (moved x (step x (inl refl))) h.0,
    Apart-update r r' xs m (λ a n. step a (inr n)) h.1,
  )

  update-IsOneOpen :
      (rows : List Request)
      → ((a : Request) → In a rows → p a ≡ true → Moves a (f a))
      → IsOneOpen rows
      → IsOneOpen (update_rows p f rows)
  update-IsOneOpen [] step h = tt
  update-IsOneOpen (x ∷ xs) step h = (
    Apart-update x _ xs (moved x (step x (inl refl))) (λ a n. step a (inr n)) h.0,
    update-IsOneOpen xs (λ a n. step a (inr n)) h.1,
  )

pub update-IsValid :
    (c : Session) (p : Request → Bool) (f : Request → Request) (rows : List Request)
    → ((a : Request) → (f a).id ≡ a.id)
    → ((a : Request) → In a rows → p a ≡ true → Moves a (f a))
    → IsValid rows
    → IsValid (update c p f rows)
update-IsValid c p f rows same step v = record {
  one_open =
      update-IsOneOpen (λ r. visible c r.tenant_id && p r) f rows
        (λ a m h. step a m (&&-elim (visible c a.tenant_id) (p a) h).1) v.one_open;
  ids = AllDistinct-update_rows (λ (r : Request). r.id) _ f rows same v.ids;
}

IsOneOpen-snoc :
    (rows : List Request) (y : Request)
    → All (λ x. Apart x y) rows
    → IsOneOpen rows
    → IsOneOpen (rows ++ y ∷ [])
IsOneOpen-snoc [] y h d = (tt, tt)
IsOneOpen-snoc (x ∷ xs) y h d =
    (All-append (Apart x) xs (y ∷ []) d.0 (h.0, tt), IsOneOpen-snoc xs y h.1 d.1)

-- A request for a layer whose erasure is open queues nothing.
pub request-IsValid :
    (tenant : Option ℕ) (groups : List String) (id now : ℕ) (name actor : String)
    (rows : List Request)
    → any (has_id id) rows ≡ false
    → IsValid rows
    → IsValid (request tenant groups id now name actor rows).1
unfolding request new_request
request-IsValid tenant groups id now name actor rows fresh v =
    elim (Bool-cases (str_eq name "public" || not (is_layer_name (codes name)))) [
      | inl a ↦ rw (a, request) v
      | inr a ↦ elim (Bool-cases (not (any (λ g. str_eq g name) groups))) [
        | inl b ↦ rw (a, b, request) v
        | inr b ↦ elim (Option-cases tenant) [
          | inl n ↦ rw (a, b, n, request) v
          | inr (t, n) ↦ elim (Bool-cases (any (open_for t name) rows)) [
            | inl o ↦ rw (a, b, n, o, request) v
            | inr o ↦ rw (a, b, n, o, request) (added t o)
          ]
        ]
      ]
    ]
  where
    added :
        (t : ℕ)
        → any (open_for t name) rows ≡ false
        → IsValid (rows ++ new_request t id now name actor ∷ [])
    added t o = record {
      one_open =
          IsOneOpen-snoc rows _
            (All-imp _ _ rows
              (λ r shut. record {
                apart = λ h k e l. absurd (
                    ground (arith, shut, h, (==_iff r.tenant_id t).1 e, (eq_iff r.layer name).1 l));
              })
              (any-false (open_for t name) rows o))
            v.one_open;
      ids =
          AllDistinct-snoc (λ (r : Request). r.id) rows _
            (All-imp _ _ rows (λ r other e. absurd (ground (arith, other, (==_iff r.id id).1 e)))
              (any-false (has_id id) rows fresh))
            v.ids;
    }

give_up-IsValid :
    (c : Session) (now : ℕ) (rows : List Request) → IsValid rows → IsValid (give_up c now rows)
unfolding give_up given_up
give_up-IsValid c now rows v =
    update-IsValid c exhausted (given_up now) rows (λ a. refl)
      (λ a m h. record {
        opens_none = λ o. absurd (cc o);
        same_tenant = refl;
        same_layer = refl;
        same_id = refl;
      })
      v

first-In : (r : Request) (rs : List Request) → first rs ≡ some r → In r rs
first-In r [] h = absurd (cc h)
first-In r (x ∷ xs) h = inl (ground (arith, h))

oldest_due-open :
    (c : Session) (now : ℕ) (locked : ℕ → Bool) (rows : List Request) (r : Request)
    → oldest_due c now locked rows ≡ some r
    → In r rows × (is_open r.status ≡ true)
unfolding oldest_due due
oldest_due-open c now locked rows r h =
    let (m, good) = In-keep _ r rows (In-sort_by older r _ (first-In r _ h)) in
    (m, ground (arith, good))

pub claim-IsValid :
    (c : Session) (now : ℕ) (locked : ℕ → Bool) (rows : List Request)
    → IsValid rows
    → IsValid (claim c now locked rows).1
unfolding claim
claim-IsValid c now locked rows v =
    elim (Option-cases (oldest_due c now locked (give_up c now rows))) [
      | inl e ↦ rw (e, claim) (give_up-IsValid c now rows v)
      | inr (r, e) ↦
          let valid = give_up-IsValid c now rows v in
          let (m, alive) = oldest_due-open c now locked (give_up c now rows) r e in
          rw (e, claim)
            (update-IsValid c (has_id r.id) (started now) (give_up c now rows)
              (λ a. unfold started in refl)
              (λ a n h.
                let same =
                  AllDistinct-eq (λ (z : Request). z.id) (give_up c now rows) a r valid.ids n m
                    ((==_iff a.id r.id).0 h) in
                unfold started in
                record {
                  opens_none = λ o. ap (λ (z : Request). is_open z.status) same ∙ alive;
                  same_tenant = refl;
                  same_layer = refl;
                  same_id = refl;
                })
              valid)
    ]
