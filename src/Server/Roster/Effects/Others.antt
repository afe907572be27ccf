-- ===== src/Server/Roster/Effects/Others.antt =====
-- The effects of administering groups, channels and tokens, and of signing in.
use stigmergy.Prelude.{
  ℕ, ◌≡◌, refl, Bool, true, false, ◌&&◌, ◌||◌, not, Option, none, some, inl, inr, List, ◌++◌, ◌==◌,
  any, find, keep, is_some, Text, codes, strip, one_line, length, ltb, is_empty, text_eq,
  Bool-cases, Option-cases,
}
use stigmergy.Kernel.Layers.{is_layer_name}
use stigmergy.Server.Roster.{
  Person, Token, Visit, Roster, Principal, Outcome, ok, refused, unrecognised, mine, named,
  brain_admins, admin_count,
}
use stigmergy.Server.Roster.Effects.{
  Effects, nothing, and_then, one, chain, grouped, redescribed, ungrouped, first_mapped, remapped,
  unmapped, issued, retouched, revisited,
}
use stigmergy.Server.Roster.Effects.People.{create_principal-Effects}
use stigmergy.Server.Roster.Names.{subject_of}
use stigmergy.Server.Roster.Groups.{
  Elsewhere, is_channel_id, group_named, create_group, update_group, person_uses, channel_uses,
  drop_group, delete_group, checked_audience, channel_named, put_channel, set_channel,
  delete_channel,
}
use stigmergy.Server.Roster.Tokens.{
  TokenGrant, not_expired, recognised, principal_for_token, new_token, issue_checked, issue_token,
  revoke_token,
}
use stigmergy.Server.Roster.Sessions.{
  outdated, enter, open_session, entered, session_principal, close_session, first_admin,
  all_or_nothing, then_issue, bootstrap_admin,
}

module _ (issuable : ℕ → Bool) where
  pub create_group-Effects :
      (t now : ℕ) (actor name description : Text) (r : Roster)
      → Effects issuable r (create_group t now actor name description r).1
  unfolding create_group
  create_group-Effects t now actor name description r =
      elim (Bool-cases (not (is_layer_name (strip name)))) [
        | inl a ↦ rw a nothing
        | inr a ↦ elim (Bool-cases (ltb 1000 (length (one_line description)))) [
          | inl b ↦ rw (a, b) nothing
          | inr b ↦ elim (Bool-cases (any (group_named t (strip name)) r.groups)) [
            | inl c ↦ rw (a, b, c) nothing
            | inr c ↦ rw (a, b, c) (one issuable (grouped _))
          ]
        ]
      ]

  pub update_group-Effects :
      (t : ℕ) (name description : Text) (r : Roster)
      → Effects issuable r (update_group t name description r).1
  unfolding update_group
  update_group-Effects t name description r =
      elim (Bool-cases (ltb 1000 (length (one_line description)))) [
        | inl b ↦ rw b nothing
        | inr b ↦ elim (Bool-cases (any (group_named t name) r.groups)) [
          | inl c ↦ rw (b, c) (one issuable (redescribed t name _))
          | inr c ↦ rw (b, c) nothing
        ]
      ]

  drop_Effects :
      (t : ℕ) (name : Text) (r : Roster) (o : Outcome Text)
      → text_eq name brain_admins ≡ false
      → any (person_uses t name) r.people ≡ false
      → any (channel_uses t name) r.channels ≡ false
      → Effects issuable r (drop_group t name r o).1
  unfolding drop_group
  drop_Effects t name r (refused why) b p c = nothing
  drop_Effects t name r unrecognised b p c = nothing
  drop_Effects t name r (ok layer) b p c = elim (Bool-cases (any (group_named t name) r.groups)) [
    | inl h ↦ rw h (one issuable (ungrouped t name b p c))
    | inr h ↦ rw h nothing
  ]

  pub delete_group-Effects :
      (t : ℕ) (name : Text) (e : Elsewhere) (r : Roster)
      → Effects issuable r (delete_group t name e r).1
  unfolding delete_group
  delete_group-Effects t name e r = elim (Bool-cases (text_eq name brain_admins)) [
    | inl b ↦ rw b nothing
    | inr b ↦ elim (Bool-cases (any (person_uses t name) r.people)) [
      | inl p ↦ rw (b, p) nothing
      | inr p ↦ elim (Bool-cases (any (channel_uses t name) r.channels)) [
        | inl c ↦ rw (b, p, c) nothing
        | inr c ↦ rw (b, p, c) (drop_Effects t name r _ b p c)
      ]
    ]
  ]

  put_Effects :
      (t now : ℕ) (actor id : Text) (given : Option (List (Option Text))) (r : Roster)
      (o : Outcome (Option (List Text)))
      → checked_audience t r given ≡ o
      → Effects issuable r (put_channel t now actor id r o).1
  unfolding put_channel
  put_Effects t now actor id given r (refused why) e = nothing
  put_Effects t now actor id given r unrecognised e = nothing
  put_Effects t now actor id given r (ok audience) e =
      elim (Bool-cases (any (channel_named t id) r.channels)) [
        | inl h ↦ rw h (one issuable (remapped t now actor id given audience e))
        | inr h ↦ rw h (one issuable (first_mapped t now actor id given audience e))
      ]

  pub set_channel-Effects :
      (upper : Text → Text) (t now : ℕ) (actor id : Text) (given : Option (List (Option Text)))
      (r : Roster)
      → Effects issuable r (set_channel upper t now actor id given r).1
  unfolding set_channel
  set_channel-Effects upper t now actor id given r =
      elim (Bool-cases (not (is_channel_id (upper (strip id))))) [
        | inl h ↦ rw h nothing
        | inr h ↦ rw h (put_Effects t now actor (upper (strip id)) given r _ refl)
      ]

  pub delete_channel-Effects :
      (upper : Text → Text) (t : ℕ) (id : Text) (r : Roster)
      → Effects issuable r (delete_channel upper t id r).1
  unfolding delete_channel
  delete_channel-Effects upper t id r =
      elim (Bool-cases (any (channel_named t (upper (strip id))) r.channels)) [
        | inl h ↦ rw h (one issuable (unmapped _))
        | inr h ↦ rw h nothing
      ]

  issue_Effects :
      (digest : Text → Text) (t now : ℕ) (actor label : Text) (id : ℕ) (token : Text)
      (expires_at : Option ℕ) (r : Roster) (o : Outcome Text)
      → issuable id ≡ true
      → Effects issuable r (issue_checked digest t now actor label id token expires_at r o).1
  unfolding issue_checked new_token
  issue_Effects digest t now actor label id token expires_at r (refused why) i = nothing
  issue_Effects digest t now actor label id token expires_at r unrecognised i = nothing
  issue_Effects digest t now actor label id token expires_at r (ok subject) i =
      elim (Bool-cases (is_empty label || ltb 80 (length label))) [
        | inl a ↦ rw a nothing
        | inr a ↦ elim (Bool-cases (not (not_expired now expires_at))) [
          | inl b ↦ rw (a, b) nothing
          | inr b ↦ elim (Bool-cases (not (any (named t subject) r.people))) [
            | inl c ↦ rw (a, b, c) nothing
            | inr c ↦ rw (a, b, c) (one issuable (issued _ i))
          ]
        ]
      ]

  pub issue_token-Effects :
      (lower digest : Text → Text) (t now : ℕ) (actor subject label : Text) (id : ℕ) (secret : Text)
      (expires_at : Option ℕ) (r : Roster)
      → issuable id ≡ true
      → Effects issuable r
          (issue_token lower digest t now actor subject label id secret expires_at r).1
  unfolding issue_token
  issue_token-Effects lower digest t now actor subject label id secret expires_at r i =
      issue_Effects digest t now actor (one_line label) id (codes "stg_" ++ secret) expires_at r
        (subject_of lower subject) i

  pub revoke_token-Effects :
      (t now : ℕ) (id : Option ℕ) (r : Roster) → Effects issuable r (revoke_token t now id r).1
  unfolding revoke_token
  revoke_token-Effects t now none r = nothing
  revoke_token-Effects t now (some id) r =
      elim (Option-cases
        (find (λ k. mine t k.tenant_id && (k.id == id && not (is_some k.revoked_at))) r.tokens)) [
          | inl e ↦ rw (e, revoke_token) nothing
          | inr (k, e) ↦
              rw (e, revoke_token)
                (and_then
                  (one issuable
                    (retouched _ _ (λ k. record { same_id = refl; still_revoked = λ h. refl })))
                  (revisited _))
        ]

  recognised-Effects :
      (now : ℕ) (r : Roster) (o : Option (Person × Token))
      → Effects issuable r (recognised now r o).1
  unfolding recognised
  recognised-Effects now r none = nothing
  recognised-Effects now r (some (p, k)) =
      one issuable (retouched _ _ (λ k. record { same_id = refl; still_revoked = λ h. h }))

  pub principal_for_token-Effects :
      (digest : Text → Text) (now : ℕ) (token : Text) (r : Roster)
      → Effects issuable r (principal_for_token digest now token r).1
  unfolding principal_for_token
  principal_for_token-Effects digest now token r = elim (Bool-cases (is_empty token)) [
    | inl h ↦ rw h nothing
    | inr h ↦ rw h (recognised-Effects now r _)
  ]

  enter-Effects :
      (digest : Text → Text) (now : ℕ) (value : Text) (r : Roster)
      (o : Outcome (Principal × ℕ) × Roster)
      → Effects issuable r o.1
      → Effects issuable r (enter digest now value o).1
  unfolding enter
  enter-Effects digest now value r (refused why, left) h = h
  enter-Effects digest now value r (unrecognised, left) h = h
  enter-Effects digest now value r (ok (who, id), left) h =
      elim (Bool-cases (
        any (λ v. text_eq v.sha256 (digest value))
          (keep (λ v. not (outdated who.tenant now v)) left.visits))) [
            | inl e ↦ rw e (and_then h (revisited _))
            | inr e ↦ rw e (and_then h (revisited _))
          ]

  pub open_session-Effects :
      (digest : Text → Text) (now : ℕ) (token value : Text) (r : Roster)
      → Effects issuable r (open_session digest now token value r).1
  unfolding open_session
  open_session-Effects digest now token value r =
      enter-Effects digest now value r _ (principal_for_token-Effects digest now token r)

  entered-Effects :
      (digest : Text → Text) (now : ℕ) (value : Text) (r : Roster) (o : Option (Person × Visit))
      → Effects issuable r (entered digest now value r o).1
  unfolding entered
  entered-Effects digest now value r none = nothing
  entered-Effects digest now value r (some (p, v)) = one issuable (revisited _)

  pub session_principal-Effects :
      (digest : Text → Text) (now : ℕ) (value : Text) (r : Roster)
      → Effects issuable r (session_principal digest now value r).1
  unfolding session_principal
  session_principal-Effects digest now value r = elim (Bool-cases (is_empty value)) [
    | inl h ↦ rw h nothing
    | inr h ↦ rw h (entered-Effects digest now value r _)
  ]

  pub close_session-Effects :
      (digest : Text → Text) (now : ℕ) (value : Text) (r : Roster)
      → Effects issuable r (close_session digest now value r)
  unfolding close_session
  close_session-Effects digest now value r = elim (Bool-cases (is_empty value)) [
    | inl h ↦ rw h nothing
    | inr h ↦ rw h (one issuable (revisited _))
  ]

  whole_Effects :
      (r : Roster) (o : Outcome TokenGrant × Roster)
      → Effects issuable r o.1
      → Effects issuable r (all_or_nothing r o).1
  unfolding all_or_nothing
  whole_Effects r (ok a, left) h = h
  whole_Effects r (refused why, left) h = nothing
  whole_Effects r (unrecognised, left) h = nothing

  then_Effects :
      (issue : Roster → Outcome TokenGrant × Roster) (r : Roster) (o : Outcome Principal × Roster)
      → ((mid : Roster) → Effects issuable mid (issue mid).1)
      → Effects issuable r o.1
      → Effects issuable r (then_issue issue o).1
  unfolding then_issue
  then_Effects issue r (ok who, left) f h = chain issuable h (f left)
  then_Effects issue r (refused why, left) f h = h
  then_Effects issue r (unrecognised, left) f h = h

  pub bootstrap_admin-Effects :
      (lower digest : Text → Text) (t now : ℕ) (actor subject name : Text) (id : ℕ) (secret : Text)
      (r : Roster)
      → issuable id ≡ true
      → Effects issuable r (bootstrap_admin lower digest t now actor subject name id secret r).1
  unfolding bootstrap_admin
  bootstrap_admin-Effects lower digest t now actor subject name id secret r i =
      elim (Bool-cases (ltb 0 (admin_count t r))) [
        | inl h ↦ rw h nothing
        | inr h ↦ rw h (
            whole_Effects r _ (
              then_Effects _ r _
                (λ mid.
                  issue_token-Effects lower digest t now actor subject (codes "bootstrap") id secret
                    none mid i)
                (create_principal-Effects issuable lower t now actor subject (first_admin name) r)))
      ]
