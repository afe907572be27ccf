-- ===== src/Server/Roster/Shut.antt =====
-- When src/stigmergy/server/roster.py stops accepting a person.
use stigmergy.Prelude.{
  ℕ, ◌≡◌, ◌≢◌, refl, sym, ap, ◌∙◌, subst, true, false, ◌&&◌, some, inl, inr, arith, ◌==◌, ==_iff,
  find, is_empty, Text, text_eq, text_eq_iff, In, find-some-In, All, All-In, update_rows-All,
  Bool-cases, Option-cases, &&-elim, strip,
}
use stigmergy.Server.Roster.{
  Person, Visit, Roster, Principal, Outcome, ok, refused, unrecognised, named, enabled,
  as_principal, live_tenant,
}
use stigmergy.Server.Roster.Checked.{Outcome-ok}
use stigmergy.Server.Roster.Tokens.{holder, principal_for_token}
use stigmergy.Server.Roster.Sessions.{Session, valid_visit, session_principal}
use stigmergy.Server.Roster.People.{
  principal, switched, switch, visit_of, close_visit, is_last, set_disabled_checked, set_disabled,
}
use stigmergy.Server.Roster.Valid.{named_iff}
use stigmergy.Server.Roster.Found.{
  holder_lem, principal_for_token-TokenRests, session_principal-VisitRests,
}

-- The subject of the tenant is disabled, and has no session that is not revoked.
pub record IsShut (t : ℕ) (s : Text) (r : Roster) : Type 0 where
  pub disabled : All (λ p. named t s p ≡ true → enabled p ≡ false) r.people
  pub closed : All (λ v. visit_of t s v ≡ false) r.visits

module _ (t now : ℕ) (actor : Text) (r : Roster) where
  switch-IsShut : (s : Text) → IsShut t s (switch t now actor true s r)
  unfolding switch switched
  switch-IsShut s = record {
    disabled = update_rows-All _ (named t s) (switched now actor true) r.people (λ p m.
        elim (Bool-cases (named t s p)) [
          | inl e ↦ rw e (λ h. refl)
          | inr e ↦ rw e (λ h. absurd (cc (e, h)))
        ]);
    closed = update_rows-All _ (visit_of t s) (close_visit now) r.visits (λ v m.
        elim (Bool-cases (visit_of t s v)) [ inl e ↦ rw e (ground arith) | inr e ↦ rw e e ]);
  }

  checked-IsShut :
      (s : Text) (o : Outcome Text)
      → (set_disabled_checked t now actor true r o).0 ≡ ok s
      → IsShut t s (set_disabled_checked t now actor true r o).1
  unfolding set_disabled_checked
  checked-IsShut s (refused why) h = absurd (cc h)
  checked-IsShut s unrecognised h = absurd (cc h)
  checked-IsShut s (ok subject) h = elim (Option-cases (find (named t subject) r.people)) [
    | inl e ↦ absurd (cc (rw (e, set_disabled_checked) at h))
    | inr (stored, e) ↦ elim (Bool-cases (is_last t subject stored r)) [
      | inl g ↦ absurd (cc (rw (e, set_disabled_checked, g) at h))
      | inr g ↦
          let same : subject ≡ s = Outcome-ok (rw (e, set_disabled_checked, g) at h) in
          rw (e, set_disabled_checked, g)
            (subst (λ x. IsShut t x (switch t now actor true subject r)) same
              (switch-IsShut subject))
    ]
  ]

shut_holder :
    (t u : ℕ) (s w : Text) (r : Roster) (p : Person)
    → IsShut t s r
    → holder r u w ≡ some p
    → p.tenant_id ≡ t
    → p.subject ≢ s
shut_holder t u s w r p shut h a b =
    let (m, x, y, e) = holder_lem r u w p h in
    let f : enabled p ≡ false = All-In _ p r.people shut.disabled m ((named_iff t s p).1 (a, b)) in
    absurd (cc (e, f))

-- An accepted session of the subject is one that is not revoked.
shut_visit :
    (t now : ℕ) (s : Text) (r : Roster) (v : Visit) (p : Person)
    → All (λ w. visit_of t s w ≡ false) r.visits
    → In v r.visits
    → valid_visit now v ≡ true
    → holder r v.tenant_id v.subject ≡ some p
    → p.tenant_id ≡ t
    → p.subject ≢ s
shut_visit t now s r v p closed m l h a b =
    let (n, x, y, e) = holder_lem r v.tenant_id v.subject p h in
    let home : (t == v.tenant_id) ≡ true = (==_iff t v.tenant_id).1 (sym a ∙ x) in
    let own : text_eq v.subject s ≡ true = (text_eq_iff v.subject s).1 (sym y ∙ b) in
    let f : visit_of t s v ≡ false = All-In _ v r.visits closed m in
    absurd (ground (arith, home, own, f, l))

enabling_checked :
    (t now : ℕ) (actor : Text) (r : Roster) (o : Outcome Text)
    → (set_disabled_checked t now actor false r o).1.visits ≡ r.visits
unfolding set_disabled_checked switch
enabling_checked t now actor r (refused why) = refl
enabling_checked t now actor r unrecognised = refl
enabling_checked t now actor r (ok subject) =
    elim (Option-cases (find (named t subject) r.people)) [
      | inl e ↦ rw (e, set_disabled_checked) refl
      | inr (stored, e) ↦ rw (e, set_disabled_checked) refl
    ]

-- Enabling touches no session.
enabling_visits :
    (lower : Text → Text) (t now : ℕ) (actor subject : Text) (r : Roster)
    → (set_disabled lower t now actor subject false r).1.visits ≡ r.visits
unfolding set_disabled
enabling_visits lower t now actor subject r = enabling_checked t now actor r _

named_shut :
    (lower : Text → Text) (t : ℕ) (s name : Text) (r : Roster) (who : Principal)
    → IsShut t s r
    → principal lower t name r ≡ ok who
    → who.subject ≢ s
unfolding principal as_principal
named_shut lower t s name r who shut h b = elim (Bool-cases (is_empty name)) [
  | inl e ↦ absurd (cc (rw (e, principal) at h))
  | inr e ↦
      elim (Option-cases (
        find (λ p. named t (lower (strip name)) p && (enabled p && live_tenant r p.tenant_id))
          r.people)) [
            | inl f ↦ absurd (cc (rw (e, principal, f) at h))
            | inr (p, f) ↦
                let (m, a) = find-some-In _ p r.people f in
                let (c, l) = &&-elim (named t (lower (strip name)) p) _ a in
                let same : as_principal p ≡ who = Outcome-ok (rw (e, principal, f) at h) in
                let q : p.subject ≡ s = ap (λ (x : Principal). x.subject) same ∙ b in
                let off : enabled p ≡ false =
                  All-In _ p r.people shut.disabled m
                    ((named_iff t s p).1 (((named_iff t (lower (strip name)) p).0 c).0, q)) in
                absurd (cc (off, (&&-elim (enabled p) (live_tenant r p.tenant_id) l).0))
          ]
]

module _ (lower digest : Text → Text) (t now : ℕ) (actor given s : Text) (r : Roster) where
  shut :
      (set_disabled lower t now actor given true r).0 ≡ ok s
      → IsShut t s (set_disabled lower t now actor given true r).1
  unfolding set_disabled
  shut h = checked-IsShut t now actor r s _ h

  -- A person that is disabled is at once nobody: in the roster that the operation leaves, no name, no
  -- token and no session, presented at any time, gives that subject of the tenant; and even once the
  -- person is enabled again, none of the sessions of before does.
  pub set_disabled-final :
      (set_disabled lower t now actor given true r).0 ≡ ok s
      → (later : ℕ) (presented : Text)
      → ((who : Principal)
          → principal lower t presented (set_disabled lower t now actor given true r).1 ≡ ok who
          → who.subject ≢ s)
        × ((who : Principal) (i : ℕ)
            → (principal_for_token digest later presented
                (set_disabled lower t now actor given true r).1).0
              ≡ ok (who, i)
            → who.tenant ≡ t
            → who.subject ≢ s)
        × ((v : Session) (again : ℕ) (by name : Text)
            → (session_principal digest later presented
                (set_disabled lower t again by name false
                  (set_disabled lower t now actor given true r).1).1).0
              ≡ ok v
            → v.principal.tenant ≡ t
            → v.principal.subject ≢ s)
        × ((v : Session)
            → (session_principal digest later presented
                (set_disabled lower t now actor given true r).1).0
              ≡ ok v
            → v.principal.tenant ≡ t
            → v.principal.subject ≢ s)
  unfolding as_principal
  set_disabled-final h later presented =
      let left = (set_disabled lower t now actor given true r).1 in
      let off : IsShut t s left = shut h in
      (
        λ who e. named_shut lower t s presented left who off e,
        λ who i e a b.
            let k = principal_for_token-TokenRests digest later left presented who i e in
            shut_holder t _ s _ left k.owner off k.held
              (ap (λ (x : Principal). x.tenant) k.same_who ∙ a)
              (ap (λ (x : Principal). x.subject) k.same_who ∙ b),
        λ v again by name e a b.
            let back = (set_disabled lower t again by name false left).1 in
            let k = session_principal-VisitRests digest later back presented v e in
            shut_visit t later s back k.visit k.owner
              (subst (All (λ w. visit_of t s w ≡ false))
                (sym (enabling_visits lower t again by name left)) off.closed)
              k.there k.valid k.held (ap (λ (x : Principal). x.tenant) k.same_who ∙ a)
              (ap (λ (x : Principal). x.subject) k.same_who ∙ b),
        λ v e a b.
            let k = session_principal-VisitRests digest later left presented v e in
            shut_holder t _ s _ left k.owner off k.held
              (ap (λ (x : Principal). x.tenant) k.same_who ∙ a)
              (ap (λ (x : Principal). x.subject) k.same_who ∙ b),
      )
