-- ===== src/Ops/Workspace/Order.antt =====
-- The order in which the tables of a workspace are emptied.
use stigmergy.Prelude.{
  ℕ, zero, suc, ◌≤◌, ◌<◌, ◌≡◌, refl, sym, ap, ◌∙◌, subst, String, Bool, true, false, not, ◌⊎◌, inl,
  inr, List, [], ◌∷◌, ◌++◌, arith, str_eq, eq_iff, keep, is_empty, length, In, All, All-append,
  All-In, In-keep, keep-In, In-sort_by, any-false, any-In, All-of, In-append_left, In-append_right,
  List-cases, In-any, Bool-cases,
}
use stigmergy.Ops.Workspace.State.{Error, Result, ok, err}
use stigmergy.Ops.Workspace.Tables.{references, has_name, leaves, name_before, order, tenant_tables}

-- no table references one that is emptied before it
abbrev pub KeepsReferences : List (String × String) → List String → Type 0
KeepsReferences keys [] = Unit
KeepsReferences keys (t ∷ ts) = All (λ c. references keys c t ≡ false) ts × KeepsReferences keys ts

pub has_name-In : (ns : List String) (t : String) → has_name ns t ≡ true → In t ns
has_name-In ns t h =
    let (n, m, e) = any-In (λ n. str_eq n t) ns h in subst (λ z. In z ns) ((eq_iff n t).0 e) m

pub In-has_name : (ns : List String) (t : String) → In t ns → has_name ns t ≡ true
In-has_name ns t m = In-any (λ n. str_eq n t) t ns m ((eq_iff t t).1 refl)

pub Result-cases :
    {A : Type 0} (r : Result A) → ((a : A) × (r ≡ ok a)) ⊎ ((e : Error) × (r ≡ err e))
Result-cases (ok a) = inl (a, refl)
Result-cases (err e) = inr (e, refl)

pub ok-eq : {A : Type 0} (a b : A) → ◌≡◌ {A = Result A} (ok a) (ok b) → a ≡ b
ok-eq a b h = cc h

module _ (keys : List (String × String)) where
  Unreferenced : List String → String → Type 0
  Unreferenced left t = All (λ c. references keys c t ≡ false) left

  leaves-Unreferenced :
      (left : List String) (t : String) → In t (leaves keys left) → In t left × Unreferenced left t
  unfolding leaves Unreferenced
  leaves-Unreferenced left t m =
      let (own, free) = In-keep _ t left (In-sort_by name_before t _ m) in
      (own, any-false (λ c. references keys c t) left (ground (arith, free)))

  keep-shrinks :
      (p : String → Bool) (t : String) (xs : List String)
      → In t xs
      → p t ≡ false
      → length (keep p xs) < length xs
  keep-shrinks p t [] m h = absurd m
  keep-shrinks p t (x ∷ xs) (inl e) h = rw (sym (ap p e) ∙ h) (omega (arith, keep-le xs))
    where
      keep-le : (ys : List String) → length (keep p ys) ≤ length ys
      keep-le [] = omega arith
      keep-le (y ∷ ys) = elim (Bool-cases (p y)) [
        | inl g ↦ rw g (omega (arith, keep-le ys))
        | inr g ↦ rw g (omega (arith, keep-le ys))
      ]
  keep-shrinks p t (x ∷ xs) (inr m) h = elim (Bool-cases (p x)) [
    | inl g ↦ rw g (omega (arith, keep-shrinks p t xs m h))
    | inr g ↦ rw g (omega (arith, keep-shrinks p t xs m h))
  ]

  joined-KeepsReferences :
      (left ready rest : List String)
      → All (Unreferenced left) ready
      → All (λ c. In c left) (ready ++ rest)
      → KeepsReferences keys rest
      → KeepsReferences keys (ready ++ rest)
  unfolding Unreferenced
  joined-KeepsReferences left [] rest h own k = k
  joined-KeepsReferences left (t ∷ ts) rest h own k =
      (All-map_In (ts ++ rest) own.1, joined-KeepsReferences left ts rest h.1 own.1 k)
    where
      All-map_In :
          (cs : List String) → All (λ c. In c left) cs → All (λ c. references keys c t ≡ false) cs
      All-map_In [] g = tt
      All-map_In (c ∷ cs) g = (All-In _ c left h.0 g.0, All-map_In cs g.1)

  pub record IsOrder (left ordered : List String) : Type 0 where
    pub complete : (t : String) → In t left → In t ordered
    pub own : All (λ t. In t left) ordered
    pub keeps : KeepsReferences keys ordered

  step-IsOrder :
      (left ready rest : List String)
      → ready ≡ leaves keys left
      → IsOrder (keep (λ n. not (has_name ready n)) left) rest
      → IsOrder left (ready ++ rest)
  step-IsOrder left ready rest e h =
      let left_own : All (λ t. In t left) (ready ++ rest) =
        All-append _ ready rest
          (All-of _ ready (λ t m. (leaves-Unreferenced left t (subst (In t) e m)).0))
          (All-of _ rest (λ t m. (In-keep _ t left (All-In _ t rest h.own m)).0)) in
      record {
        complete = λ t m. elim (Bool-cases (has_name ready t)) [
          | inl g ↦ In-append_left t ready rest (has_name-In ready t g)
          | inr g ↦
              In-append_right t ready rest (h.complete t (keep-In _ t left m (ground (arith, g))))
        ];
        own = left_own;
        keeps =
            joined-KeepsReferences left ready rest
              (All-of _ ready (λ t m. (leaves-Unreferenced left t (subst (In t) e m)).1)) left_own
              h.keeps;
      }

  order-IsOrder :
      (fuel : ℕ) (left ordered : List String)
      → length left ≤ fuel
      → order fuel keys left ≡ ok ordered
      → IsOrder left ordered
  unfolding order
  order-IsOrder fuel [] ordered enough h =
      subst (IsOrder []) (ok-eq [] ordered (none_left fuel ∙ h))
        (record { complete = λ t m. m; own = tt; keeps = tt })
    where
      none_left : (n : ℕ) → ◌≡◌ {A = Result (List String)} (ok []) (order n keys [])
      none_left zero = refl
      none_left (suc n) = refl
  order-IsOrder zero (t ∷ ts) ordered enough h = absurd (omega (arith, enough))
  order-IsOrder (suc fuel) (t ∷ ts) ordered enough h =
      let left = t ∷ ts in
      let ready = leaves keys left in
      let after = keep (λ n. not (has_name ready n)) left in
      elim (List-cases ready) [
        | inl none ↦ absurd (cc (rw (order, none) at h))
        | inr (r, rs, some_ready) ↦
            let r_ready : In r ready = subst (In r) (sym some_ready) (inl refl) in
            let gone : not (has_name ready r) ≡ false = rw (In-has_name ready r r_ready) in
            let fewer : length after < length left =
              keep-shrinks (λ n. not (has_name ready n)) r left
                (leaves-Unreferenced left r r_ready).0 gone in
            let busy : is_empty ready ≡ false = ap is_empty some_ready in
            elim (Result-cases (order fuel keys after)) [
              | inl (rest, e) ↦ subst (IsOrder left) (ok-eq _ ordered (rw (order, busy, e) at h)) (
                  step-IsOrder left ready rest refl
                    (order-IsOrder fuel after rest (omega (arith, fewer, enough)) e))
              | inr (bad, e) ↦ absurd (cc (rw (order, busy, e) at h))
            ]
      ]

  -- The order names every table, only tables, and no table after one that it references.
  pub tenant_tables-IsOrder :
      (tables ordered : List String)
      → tenant_tables keys tables ≡ ok ordered
      → IsOrder tables ordered
  unfolding tenant_tables
  tenant_tables-IsOrder tables ordered h =
      order-IsOrder (length tables) tables ordered (omega arith) h
