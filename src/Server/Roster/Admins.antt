-- ===== src/Server/Roster/Admins.antt =====
-- A tenant's administrators over whole runs of the operations of src/stigmergy/server/roster.py.
use stigmergy.Prelude.{
  ℕ, ◌≡◌, refl, sym, ap, ◌∙◌, subst, Bool, true, false, ◌&&◌, not, some, ◌⊎◌, inl, inr, List, [],
  ◌∷◌, arith, ◌==◌, ==_iff, find, keep, length, ltb, update_rows, Text, text_eq, In, In-keep,
  keep-In, find-some-In, In-append_left, AllDistinct, AllDistinct-eq, Bool-cases, &&-elim,
}
use stigmergy.Server.Roster.{
  Person, Roster, refused, admin_exists, named, enabled, administrator, admin_count, admins_left,
}
use stigmergy.Server.Roster.Sessions.{bootstrap_admin}
use stigmergy.Server.Roster.Names.{Fields}
use stigmergy.Server.Roster.People.{updated, switched, is_last}
use stigmergy.Server.Roster.Effects.{
  Effect, inserted, rewritten, turned, removed, grouped, redescribed, ungrouped, first_mapped,
  remapped, unmapped, issued, retouched, forgotten, revisited,
}
use stigmergy.Server.Roster.Steps.{Course, run_keeps}
use stigmergy.Server.Roster.Valid.{IsOrderly, key, named_iff}
use stigmergy.Server.Roster.Kept.{Effect-IsOrderly}

-- an administrator of the tenant that is not disabled
abbrev pub HasAdmin : ℕ → Roster → Type 0
HasAdmin u r = (p : Person) × In p r.people × (administrator u p ≡ true)

update_rows-other :
    {A : Type 0} (q : A → Bool) (f : A → A) (a : A) (xs : List A)
    → In a xs
    → q a ≡ false
    → In a (update_rows q f xs)
update_rows-other q f a [] m h = absurd m
update_rows-other q f a (x ∷ xs) (inl e) h =
    let h' : q x ≡ false = ap q (sym e) ∙ h in inl (rw h' e)
update_rows-other q f a (x ∷ xs) (inr m) h = inr (update_rows-other q f a xs m h)

update_rows-hit :
    {A : Type 0} (q : A → Bool) (f : A → A) (a : A) (xs : List A)
    → In a xs
    → q a ≡ true
    → In (f a) (update_rows q f xs)
update_rows-hit q f a [] m h = absurd m
update_rows-hit q f a (x ∷ xs) (inl e) h =
    let h' : q x ≡ true = ap q (sym e) ∙ h in inl (rw h' (ap f e))
update_rows-hit q f a (x ∷ xs) (inr m) h = inr (update_rows-hit q f a xs m h)

counted : {A : Type 0} (xs : List A) → (length xs == 0) ≡ false → (a : A) × In a xs
counted [] h = absurd (ground arith)
counted (x ∷ xs) h = (x, inl refl)

module _ (r : Roster) (t : ℕ) (s : Text) where
  -- Another administrator is left, and is not the subject's row.
  another :
      (admins_left t s r == 0) ≡ false
      → (p : Person) × In p r.people × (administrator t p ≡ true) × (named t s p ≡ false)
  unfolding admins_left
  another h =
      let (p, m) = counted _ h in
      let (n, e) = In-keep _ p r.people m in
      let (a, b) = &&-elim (administrator t p) (not (text_eq p.subject s)) e in
      (p, n, a, ground arith)

  -- The rows of the tenant's administrators outside the subject's, or else the subject's row alone.
  beside :
      (u : ℕ) (stored : Person)
      → AllDistinct key r.people
      → find (named t s) r.people ≡ some stored
      → HasAdmin u r
      → ((p : Person) × In p r.people × (administrator u p ≡ true) × (named t s p ≡ false))
        ⊎ ((u ≡ t) × (administrator u stored ≡ true))
  beside u stored d f (p, m, a) = elim (Bool-cases (named t s p)) [
    | inr n ↦ inl (p, m, a, n)
    | inl n ↦
        let (q, g) = find-some-In (named t s) stored r.people f in
        let (t1, s1) = (named_iff t s p).0 n in
        let (t2, s2) = (named_iff t s stored).0 g in
        let same_key : key p ≡ key stored = λ i. ((t1 ∙ sym t2) i, (s1 ∙ sym s2) i) in
        let e : p ≡ stored = AllDistinct-eq key r.people p stored d m q same_key in
        let home : u ≡ p.tenant_id =
          (==_iff u p.tenant_id).0 (&&-elim (u == p.tenant_id) (p.is_admin && enabled p) a).0 in
        inr (home ∙ t1, ap (administrator u) (sym e) ∙ a)
  ]

  kept_aside :
      (u : ℕ) (f : Person → Person)
      → ((p : Person) × In p r.people × (administrator u p ≡ true) × (named t s p ≡ false))
      → HasAdmin u (record r { people = update_rows (named t s) f r.people })
  kept_aside u f (p, m, a, n) = (p, update_rows-other (named t s) f p r.people m n, a)

  other_admin :
      (u : ℕ)
      → u ≡ t
      → (admins_left t s r == 0) ≡ false
      → (p : Person) × In p r.people × (administrator u p ≡ true) × (named t s p ≡ false)
  other_admin u e h =
      let (p, m, a, n) = another h in (p, m, subst (λ w. administrator w p ≡ true) (sym e) a, n)

  rewritten_admin :
      (u now : ℕ) (actor : Text) (stored : Person) (values : Fields)
      → AllDistinct key r.people
      → find (named t s) r.people ≡ some stored
      → ((stored.is_admin && not values.is_admin) && (admins_left t s r == 0)) ≡ false
      → HasAdmin u r
      → HasAdmin u
          (record r { people = update_rows (named t s) (updated now actor values) r.people })
  unfolding updated
  rewritten_admin u now actor stored values d f g h = elim (beside u stored d f h) [
    | inl b ↦ kept_aside u _ b
    | inr (e, a) ↦ elim (Bool-cases values.is_admin) [
      | inl y ↦
          let (m, n) = find-some-In (named t s) stored r.people f in
          (
            updated now actor values stored,
            update_rows-hit (named t s) (updated now actor values) stored r.people m n,
            ground arith,
          )
      | inr y ↦ kept_aside u _ (other_admin u e (ground arith))
    ]
  ]

  turned_admin :
      (u now : ℕ) (actor : Text) (disabled : Bool) (stored : Person)
      → AllDistinct key r.people
      → find (named t s) r.people ≡ some stored
      → (disabled && is_last t s stored r) ≡ false
      → HasAdmin u r
      → HasAdmin u
          (record r { people = update_rows (named t s) (switched now actor disabled) r.people })
  unfolding switched
  turned_admin u now actor false stored d f g h = elim (beside u stored d f h) [
    | inl b ↦ kept_aside u _ b
    | inr (e, a) ↦
        let (m, n) = find-some-In (named t s) stored r.people f in
        (
          switched now actor false stored,
          update_rows-hit (named t s) (switched now actor false) stored r.people m n,
          ground arith,
        )
  ]
  turned_admin u now actor true stored d f g h = elim (beside u stored d f h) [
    | inl b ↦ kept_aside u _ b
    | inr (e, a) ↦ kept_aside u _ (other_admin u e (ground arith))
  ]

  removed_admin :
      (u : ℕ) (stored : Person)
      → AllDistinct key r.people
      → find (named t s) r.people ≡ some stored
      → is_last t s stored r ≡ false
      → HasAdmin u r
      → HasAdmin u (record r { people = keep (λ p. not (named t s p)) r.people })
  removed_admin u stored d f g h = elim (beside u stored d f h) [
    | inl (p, m, a, n) ↦ (p, keep-In _ p r.people m (rw n refl), a)
    | inr (e, a) ↦
        let (p, m, b, n) = other_admin u e (ground arith) in
        (p, keep-In _ p r.people m (rw n refl), b)
  ]

module _ (issuable : ℕ → Bool) (u : ℕ) where
  Effect-HasAdmin :
      (r end : Roster) → Effect issuable r end → IsOrderly r → HasAdmin u r → HasAdmin u end
  Effect-HasAdmin r end (inserted t now actor s form values e h) v (p, m, a) =
      (p, In-append_left p r.people _ m, a)
  Effect-HasAdmin r end (rewritten t now actor s stored form values f e g) v a =
      rewritten_admin r t s u now actor stored values v.keys f g a
  Effect-HasAdmin r end (turned t now actor s disabled stored f g) v a =
      turned_admin r t s u now actor disabled stored v.keys f g a
  Effect-HasAdmin r end (removed t s stored f g) v a = removed_admin r t s u stored v.keys f g a
  Effect-HasAdmin r end (grouped row) v a = a
  Effect-HasAdmin r end (redescribed t name line) v a = a
  Effect-HasAdmin r end (ungrouped t name b p c) v a = a
  Effect-HasAdmin r end (first_mapped t now actor id given audience e) v a = a
  Effect-HasAdmin r end (remapped t now actor id given audience e) v a = a
  Effect-HasAdmin r end (unmapped p) v a = a
  Effect-HasAdmin r end (issued row i) v a = a
  Effect-HasAdmin r end (retouched p f s) v a = a
  Effect-HasAdmin r end (forgotten p) v a = a
  Effect-HasAdmin r end (revisited visits) v a = a

  counts : (r : Roster) → HasAdmin u r → ltb 0 (admin_count u r) ≡ true
  unfolding admin_count
  counts r (p, m, a) = filled _ (keep-In (administrator u) p r.people m a)
    where
      filled : (xs : List Person) → In p xs → ltb 0 (length xs) ≡ true
      filled [] m = absurd m
      filled (x ∷ xs) m = ground arith

  -- From an orderly roster in which a tenant has an administrator that is not disabled, whatever operations
  -- run, on connections of any tenants and in any order, the tenant has such an administrator afterwards;
  -- and no one becomes its administrator by the bootstrap, which is refused and changes nothing.
  pub Course-HasAdmin :
      (lower upper digest : Text → Text) {r end : Roster}
      → Course issuable lower upper digest r end
      → IsOrderly r
      → HasAdmin u r
      → HasAdmin u end
        × ((now : ℕ) (actor subject name : Text) (id : ℕ) (secret : Text)
            → bootstrap_admin lower digest u now actor subject name id secret end
              ≡ (refused admin_exists, end))
  unfolding bootstrap_admin
  Course-HasAdmin lower upper digest {r} {end} run v a =
      let (w, b) =
        run_keeps issuable lower upper digest (λ x. IsOrderly x × HasAdmin u x)
          (λ x y e p. (Effect-IsOrderly issuable x y e p.0, Effect-HasAdmin x y e p.0 p.1)) run
          (v, a) in
      (b, λ now actor subject name id secret. rw (counts end b) refl)
