-- ===== src/Server/Roster/Cutoff.antt =====
-- When src/stigmergy/server/roster.py stops accepting a token or a person.
use stigmergy.Prelude.{
  ℕ, ◌≡◌, ◌≢◌, refl, sym, ap, ◌∙◌, Bool, true, false, ◌&&◌, not, some, inl, inr, arith, ◌==◌,
  ==_iff, if◌then◌else◌, find, keep, is_some, Text, In, In-keep, find-some-In, All, All-In, All-of,
  All-append, All-update_In, AllDistinct, AllDistinct-eq, &&-intro, update_rows-All, Bool-cases,
  Option-cases, &&-elim,
}
use stigmergy.Server.Roster.{Token, Roster, Principal, ok, mine}
use stigmergy.Server.Roster.Tokens.{live, principal_for_token, revoke, revoke_token}
use stigmergy.Server.Roster.Sessions.{Session, session_principal}
use stigmergy.Server.Roster.Effects.{
  Effect, inserted, rewritten, turned, removed, grouped, redescribed, ungrouped, first_mapped,
  remapped, unmapped, issued, retouched, forgotten, revisited,
}
use stigmergy.Server.Roster.Steps.{Course, run_keeps}
use stigmergy.Server.Roster.Found.{principal_for_token-TokenRests, session_principal-VisitRests}

-- every row of the id is revoked
abbrev pub IsRevoked : ℕ → Roster → Type 0
IsRevoked id r = All (λ (k : Token). k.id ≡ id → is_some k.revoked_at ≡ true) r.tokens

dead :
    (now id : ℕ) (r : Roster) (k : Token)
    → IsRevoked id r
    → In k r.tokens
    → live now k ≡ true
    → k.id ≢ id
dead now id r k v m l e =
    let gone : is_some k.revoked_at ≡ true = All-In _ k r.tokens v m e in absurd (ground arith)

module _ (issuable : ℕ → Bool) (id : ℕ) (spent : issuable id ≡ false) where
  Effect-IsRevoked : (r end : Roster) → Effect issuable r end → IsRevoked id r → IsRevoked id end
  Effect-IsRevoked r end (inserted t now actor s form values e h) v = v
  Effect-IsRevoked r end (rewritten t now actor s stored form values f e g) v = v
  Effect-IsRevoked r end (turned t now actor s disabled stored f g) v = v
  Effect-IsRevoked r end (removed t s stored f g) v = v
  Effect-IsRevoked r end (grouped row) v = v
  Effect-IsRevoked r end (redescribed t name line) v = v
  Effect-IsRevoked r end (ungrouped t name b p c) v = v
  Effect-IsRevoked r end (first_mapped t now actor channel given audience e) v = v
  Effect-IsRevoked r end (remapped t now actor channel given audience e) v = v
  Effect-IsRevoked r end (unmapped p) v = v
  Effect-IsRevoked r end (issued row i) v =
      All-append _ r.tokens _ v (λ e. absurd (cc (sym i, ap issuable e, spent)), tt)
  Effect-IsRevoked r end (retouched p f s) v =
      All-update_In _ p f r.tokens (λ k m w h e. (s k).still_revoked (w (sym (s k).same_id ∙ e))) v
  Effect-IsRevoked r end (forgotten p) v =
      All-of _ (keep p r.tokens) (λ k m. All-In _ k r.tokens v (In-keep p k r.tokens m).0)
  Effect-IsRevoked r end (revisited visits) v = v

revoke_token-IsRevoked :
    (t now id : ℕ) (r : Roster) (s : Text)
    → AllDistinct (λ (k : Token). k.id) r.tokens
    → (revoke_token t now (some id) r).0 ≡ ok s
    → IsRevoked id (revoke_token t now (some id) r).1
unfolding revoke_token
revoke_token-IsRevoked t now id r s d h =
    elim (Option-cases
      (find (λ k. mine t k.tenant_id && (k.id == id && not (is_some k.revoked_at))) r.tokens)) [
        | inl e ↦ absurd (cc (rw (e, revoke_token) at h))
        | inr (k, e) ↦
            let (m, a) = find-some-In _ k r.tokens e in
            let (b, c) =
              &&-elim (t == k.tenant_id) ((k.id == id) && not (is_some k.revoked_at)) a in
            let same : k.id ≡ id =
              (==_iff k.id id).0 (&&-elim (k.id == id) (not (is_some k.revoked_at)) c).0 in
            rw (e, revoke_token)
              (update_rows-All _ _ (revoke now) r.tokens (λ x q. revoked_row k m same b x q))
      ]
  where
    revoked_row :
        (k : Token)
        → In k r.tokens
        → k.id ≡ id
        → (t == k.tenant_id) ≡ true
        → (x : Token) → In x r.tokens
        → (if mine t x.tenant_id && x.id == id then revoke now x else x).id ≡ id
        → is_some (if mine t x.tenant_id && x.id == id then revoke now x else x).revoked_at ≡ true
    revoked_row k m same b x q = elim (Bool-cases (mine t x.tenant_id && x.id == id)) [
      | inl g ↦ rw g (λ w. refl)
      | inr g ↦ rw g (λ w.
          let one : x ≡ k = AllDistinct-eq _ r.tokens x k d q m (w ∙ sym same) in
          let here : (t == x.tenant_id) ≡ true = ap (λ (y : Token). t == y.tenant_id) one ∙ b in
          absurd (cc (g, &&-intro _ _ here ((==_iff x.id id).1 w))))
    ]

module _ (issuable : ℕ → Bool) (lower upper : Text → Text) where
  -- A token that is revoked is refused from then on, and so is every session that it opened: whatever
  -- operations run after, on connections of any tenants, no presented text is ever taken for that token
  -- or for a session of it. Token ids are a primary key, and its id is never drawn again.
  pub revoke_token-final :
      (digest : Text → Text) (t now id : ℕ) (r end : Roster) (s : Text)
      → AllDistinct (λ (k : Token). k.id) r.tokens
      → issuable id ≡ false
      → (revoke_token t now (some id) r).0 ≡ ok s
      → Course issuable lower upper digest (revoke_token t now (some id) r).1 end
      → (later : ℕ) (given : Text)
      → ((who : Principal) (i : ℕ)
          → (principal_for_token digest later given end).0 ≡ ok (who, i)
          → i ≢ id)
        × ((v : Session) → (session_principal digest later given end).0 ≡ ok v → v.token_id ≢ id)
  revoke_token-final digest t now id r end s d spent h run later given =
      let gone : IsRevoked id end =
        run_keeps issuable lower upper digest (IsRevoked id) (Effect-IsRevoked issuable id spent)
          run (revoke_token-IsRevoked t now id r s d h) in
      (
        λ who i e same.
            let k = principal_for_token-TokenRests digest later end given who i e in
            dead later id end k.token gone k.there k.alive (k.same_id ∙ same),
        λ v e same.
            let k = session_principal-VisitRests digest later end given v e in
            dead later id end k.opener gone k.opener_there k.opener_alive (k.opener_id ∙ same),
      )
