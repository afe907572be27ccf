-- ===== src/Server/Roster/Stored.antt =====
-- What an update of a disabled person answers (src/stigmergy/server/roster.py).
use stigmergy.Prelude.{
  ℕ, ◌≡◌, refl, sym, ap, ◌∙◌, subst, true, false, ◌&&◌, not, some, inl, inr, ◌==◌, find,
  update_rows, is_empty, Text, strip, find-some-In, update_rows-All, All, All-In, AllDistinct,
  AllDistinct-eq, Bool-cases, Option-cases, &&-elim,
}
use stigmergy.Server.Roster.{
  Person, Roster, Principal, Outcome, ok, unrecognised, named, enabled, admins_left, live_tenant,
}
use stigmergy.Server.Roster.Names.{subject_of, Form, Fields, validated}
use stigmergy.Server.Roster.People.{
  principal, overlay, updated, write_fields, update_checked, then_read, update_principal,
}
use stigmergy.Server.Roster.Valid.{key, named_iff}

-- A subject that every row disables is not recognised.
disabled_unrecognised :
    (lower : Text → Text) (t : ℕ) (s : Text) (r : Roster)
    → lower (strip s) ≡ s
    → All (λ p. named t s p ≡ true → enabled p ≡ false) r.people
    → principal lower t s r ≡ unrecognised
unfolding principal
disabled_unrecognised lower t s r q off = elim (Bool-cases (is_empty s)) [
  | inl e ↦ rw (e, principal) refl
  | inr e ↦
      elim (Option-cases (
        find (λ p. named t (lower (strip s)) p && (enabled p && live_tenant r p.tenant_id))
          r.people)) [
            | inl f ↦ rw (e, principal, f) refl
            | inr (p, f) ↦
                let (m, a) = find-some-In _ p r.people f in
                let (n, b) = &&-elim (named t (lower (strip s)) p) _ a in
                let c = All-In _ p r.people off m (subst (λ w. named t w p ≡ true) q n) in
                absurd (cc (c, (&&-elim (enabled p) (live_tenant r p.tenant_id) b).0))
          ]
]

module _ (lower : Text → Text) (t now : ℕ) (actor : Text) (r : Roster) (s : Text) where
  updated_off :
      (stored : Person) (values : Fields)
      → AllDistinct key r.people
      → find (named t s) r.people ≡ some stored
      → enabled stored ≡ false
      → All
          (λ p. named t s p ≡ true → enabled p ≡ false)
          (update_rows (named t s) (updated now actor values) r.people)
  unfolding updated
  updated_off stored values d f off =
      update_rows-All _ (named t s) (updated now actor values) r.people (λ p m.
        elim (Bool-cases (named t s p)) [
          | inr e ↦ rw e (λ h. absurd (cc (e, h)))
          | inl e ↦
              let (n, g) = find-some-In (named t s) stored r.people f in
              let (t1, s1) = (named_iff t s p).0 e in
              let (t2, s2) = (named_iff t s stored).0 g in
              let same : key p ≡ key stored = λ i. ((t1 ∙ sym t2) i, (s1 ∙ sym s2) i) in
              rw e (λ h. ap enabled (AllDistinct-eq key r.people p stored d m n same) ∙ off)
        ])

  -- An update of a disabled person that every check passes, for a subject that lowering and stripping
  -- leave as it is, is written by its transaction, and is then answered by IdentityError.
  pub update_principal-disabled :
      (given : Text) (form : Form) (stored : Person) (values : Fields)
      → AllDistinct key r.people
      → subject_of lower given ≡ ok s
      → lower (strip s) ≡ s
      → find (named t s) r.people ≡ some stored
      → enabled stored ≡ false
      → validated t r (overlay stored form) ≡ ok values
      → ((stored.is_admin && not values.is_admin) && (admins_left t s r == 0)) ≡ false
      → update_principal lower t now actor given form r ≡ (
        unrecognised,
        record r { people = update_rows (named t s) (updated now actor values) r.people },
      )
  unfolding update_principal update_checked write_fields then_read
  update_principal-disabled given form stored values d e q f off v g =
      let people = update_rows (named t s) (updated now actor values) r.people in
      let end : Roster = record r { people = people } in
      rw (e, update_principal, f, update_checked, v, write_fields, g)
        (ap (λ (o : Outcome Principal). (o, end))
          (disabled_unrecognised lower t s end q (updated_off stored values d f off)))
