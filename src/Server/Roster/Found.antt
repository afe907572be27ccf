-- ===== src/Server/Roster/Found.antt =====
-- What a sign-in that src/stigmergy/server/roster.py accepts rests on.
use stigmergy.Prelude.{
  ℕ, ◌≡◌, refl, ap, ◌∙◌, subst, true, ◌&&◌, Option, none, some, inl, inr, ◌==◌, ==_iff, find,
  is_empty, Text, text_eq, text_eq_iff, In, find-some-In, Bool-cases, Option-cases, &&-elim,
}
use stigmergy.Server.Roster.{
  Person, Token, Visit, Roster, Principal, ok, enabled, as_principal, live_tenant,
}
use stigmergy.Server.Roster.Checked.{Outcome-ok}
use stigmergy.Server.Roster.Tokens.{live, holder, find_token, recognised, principal_for_token}
use stigmergy.Server.Roster.Sessions.{
  Session, key_of, valid_visit, find_visit, entered, session_principal,
}

-- The token's row, live, and its person's, enabled, in a live workspace.
pub record TokenRests (now : ℕ) (r : Roster) (who : Principal) (id : ℕ) : Type 0 where
  pub token : Token
  pub there : In token r.tokens
  pub alive : live now token ≡ true
  pub same_id : token.id ≡ id
  pub owner : Person
  pub held : holder r token.tenant_id token.subject ≡ some owner
  pub same_who : as_principal owner ≡ who

-- The session's row, valid, the live token that opened it, and its person's row.
pub record VisitRests (now : ℕ) (r : Roster) (s : Session) : Type 0 where
  pub visit : Visit
  pub there : In visit r.visits
  pub valid : valid_visit now visit ≡ true
  pub same_id : visit.token_id ≡ s.token_id
  pub opener : Token
  pub opener_there : In opener r.tokens
  pub opener_alive : live now opener ≡ true
  pub opener_id : opener.id ≡ s.token_id
  pub owner : Person
  pub held : holder r visit.tenant_id visit.subject ≡ some owner
  pub same_who : as_principal owner ≡ s.principal

-- The person that a row names, whose row is enabled.
pub holder_lem :
    (r : Roster) (t : ℕ) (s : Text) (p : Person)
    → holder r t s ≡ some p
    → In p r.people × (p.tenant_id ≡ t) × (p.subject ≡ s) × (enabled p ≡ true)
holder_lem r t s p h =
    let (m, a) = find-some-In _ p r.people h in
    let (b, c) = &&-elim (p.tenant_id == t && text_eq p.subject s) _ a in
    let (d, e) = &&-elim (p.tenant_id == t) (text_eq p.subject s) b in
    (
      m,
      (==_iff p.tenant_id t).0 d,
      (text_eq_iff p.subject s).0 e,
      (&&-elim (enabled p) (live_tenant r p.tenant_id) c).0,
    )

module _ (digest : Text → Text) (now : ℕ) (r : Roster) where
  recognised_rests :
      (o : Option (Person × Token)) (who : Principal) (id : ℕ)
      → ((p : Person) (k : Token)
          → o ≡ some (p, k)
          → In k r.tokens × (live now k ≡ true) × (holder r k.tenant_id k.subject ≡ some p))
      → (recognised now r o).0 ≡ ok (who, id)
      → TokenRests now r who id
  unfolding recognised
  recognised_rests none who id f h = absurd (cc h)
  recognised_rests (some (p, k)) who id f h =
      let (m, l, e) = f p k refl in
      let q : (as_principal p, k.id) ≡ (who, id) = Outcome-ok h in
      record {
        token = k;
        there = m;
        alive = l;
        same_id = ap (λ x. x.1) q;
        owner = p;
        held = e;
        same_who = ap (λ x. x.0) q;
      }

  found_token :
      (token : Text) (p : Person) (k : Token)
      → find_token digest now token r ≡ some (p, k)
      → In k r.tokens × (live now k ≡ true) × (holder r k.tenant_id k.subject ≡ some p)
  unfolding find_token
  found_token token p k h =
      elim (Option-cases
        (find (λ row. text_eq row.sha256 (digest token) && live now row) r.tokens)) [
          | inl e ↦ absurd (cc (rw (e, find_token) at h))
          | inr (j, e) ↦ elim (Option-cases (holder r j.tenant_id j.subject)) [
            | inl g ↦ absurd (cc (rw (e, find_token, g) at h))
            | inr (q, g) ↦
                let (m, n) = find-some-In _ j r.tokens e in
                let same : some (q, j) ≡ some (p, k) = rw (e, find_token, g) at h in
                let same_pair : ◌≡◌ {A = Person × Token} (q, j) (p, k) =
                  ap (λ o. elim o [ none ↦ (q, j) | some x ↦ x ]) same in
                let same_token : j ≡ k = ap (λ x. x.1) same_pair in
                (
                  subst (λ x. In x r.tokens) same_token m,
                  subst (λ x. live now x ≡ true) same_token
                      (&&-elim (text_eq j.sha256 (digest token)) (live now j) n).1,
                  subst (λ x. holder r x.tenant_id x.subject ≡ some p) same_token
                      (g ∙ ap (λ x. some x.0) same_pair),
                )
          ]
        ]

  pub principal_for_token-TokenRests :
      (token : Text) (who : Principal) (id : ℕ)
      → (principal_for_token digest now token r).0 ≡ ok (who, id)
      → TokenRests now r who id
  unfolding principal_for_token
  principal_for_token-TokenRests token who id h = elim (Bool-cases (is_empty token)) [
    | inl e ↦ absurd (cc (rw (e, principal_for_token) at h))
    | inr e ↦ recognised_rests _ who id (found_token token) (rw (e, principal_for_token) at h)
  ]

  -- the three reads of `session_principal` behind a session's row
  found_visit :
      (value : Text) (p : Person) (v : Visit)
      → find_visit digest now value r ≡ some (p, v)
      → In v r.visits
        × (valid_visit now v ≡ true)
        × ((k : Token) × (key_of r now v.token_id ≡ some k))
        × (holder r v.tenant_id v.subject ≡ some p)
  unfolding find_visit
  found_visit value p v h =
      elim (Option-cases
        (find (λ row. text_eq row.sha256 (digest value) && valid_visit now row) r.visits)) [
          | inl e ↦ absurd (cc (rw (e, find_visit) at h))
          | inr (w, e) ↦ elim (Option-cases (key_of r now w.token_id)) [
            | inl g ↦ absurd (cc (rw (e, find_visit, g) at h))
            | inr (k, g) ↦ elim (Option-cases (holder r w.tenant_id w.subject)) [
              | inl f ↦ absurd (cc (rw (e, find_visit, g, f) at h))
              | inr (q, f) ↦
                  let (m, n) = find-some-In _ w r.visits e in
                  let same : some (q, w) ≡ some (p, v) = rw (e, find_visit, g, f) at h in
                  let same_pair : ◌≡◌ {A = Person × Visit} (q, w) (p, v) =
                    ap (λ o. elim o [ none ↦ (q, w) | some x ↦ x ]) same in
                  let same_visit : w ≡ v = ap (λ x. x.1) same_pair in
                  (
                    subst (λ x. In x r.visits) same_visit m,
                    subst (λ x. valid_visit now x ≡ true) same_visit
                        (&&-elim (text_eq w.sha256 (digest value)) (valid_visit now w) n).1,
                    (k, subst (λ x. key_of r now x.token_id ≡ some k) same_visit g),
                    subst (λ x. holder r x.tenant_id x.subject ≡ some p) same_visit
                        (f ∙ ap (λ x. some x.0) same_pair),
                  )
            ]
          ]
        ]

  entered_rests :
      (value : Text) (o : Option (Person × Visit)) (s : Session)
      → ((p : Person) (v : Visit)
          → o ≡ some (p, v)
          → In v r.visits
            × (valid_visit now v ≡ true)
            × ((k : Token) × (key_of r now v.token_id ≡ some k))
            × (holder r v.tenant_id v.subject ≡ some p))
      → (entered digest now value r o).0 ≡ ok s
      → VisitRests now r s
  unfolding entered
  entered_rests value none s f h = absurd (cc h)
  entered_rests value (some (p, v)) s f h =
      let (m, l, (k, g), e) = f p v refl in
      let q = Outcome-ok h in
      let (n, a) = find-some-In _ k r.tokens g in
      let (i, b) = &&-elim (k.id == v.token_id) (live now k) a in
      record {
        visit = v;
        there = m;
        valid = l;
        same_id = ap (λ (x : Session). x.token_id) q;
        opener = k;
        opener_there = n;
        opener_alive = b;
        opener_id = (==_iff k.id v.token_id).0 i ∙ ap (λ (x : Session). x.token_id) q;
        owner = p;
        held = e;
        same_who = ap (λ (x : Session). x.principal) q;
      }

  pub session_principal-VisitRests :
      (value : Text) (s : Session)
      → (session_principal digest now value r).0 ≡ ok s
      → VisitRests now r s
  unfolding session_principal
  session_principal-VisitRests value s h = elim (Bool-cases (is_empty value)) [
    | inl e ↦ absurd (cc (rw (e, session_principal) at h))
    | inr e ↦
        entered_rests value (find_visit digest now value r) s (found_visit value)
          (rw (e, session_principal) at h)
  ]
