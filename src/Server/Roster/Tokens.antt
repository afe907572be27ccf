-- ===== src/Server/Roster/Tokens.antt =====
-- src/stigmergy/server/roster.py: bearer tokens. The random token value and the new id are arguments.
use stigmergy.Prelude.{
  ℕ, ◌+◌, Bool, true, ◌&&◌, ◌||◌, not, Option, none, some, [], ◌∷◌, ◌++◌, ltb, ◌==◌, if◌then◌else◌,
  any, find, take, length, update_rows, is_some, is_empty, Text, codes, one_line, text_eq,
}
use stigmergy.Capture.Schema.{seconds}
use stigmergy.Server.Roster.{
  Person, Token, Visit, Roster, Principal, no_label, expired_already, does_not_exist, no_token,
  Outcome, ok, refused, unrecognised, mine, named, enabled, as_principal, live_tenant,
}
use stigmergy.Server.Roster.Names.{subject_of}

pub record TokenGrant : Type 0 where
  pub token : Text
  pub id : ℕ
  pub subject : Text
  pub label : Text
  pub prefix : Text
  pub expires_at : Option ℕ

abbrev token_prefix : Text
token_prefix = codes "stg_"

-- expires_at IS NULL OR expires_at > now()
abbrev pub not_expired : ℕ → Option ℕ → Bool
not_expired now none = true
not_expired now (some at) = ltb now at

-- revoked_at IS NULL AND (expires_at IS NULL OR expires_at > now())
abbrev pub live : ℕ → Token → Bool
live now k = not (is_some k.revoked_at) && not_expired now k.expires_at

-- the person that a token's or a session's row names, enabled and in a live workspace
abbrev pub holder : Roster → ℕ → Text → Option Person
holder r t s =
    find
      (λ p. (p.tenant_id == t && text_eq p.subject s) && (enabled p && live_tenant r p.tenant_id))
      r.people

-- more than a minute before
abbrev pub stale : ℕ → Option ℕ → Bool
stale now none = true
stale now (some at) = ltb (at + seconds 60) now

abbrev used : ℕ → Token → Token
used now k = record k { last_used_at = some now }

-- the SELECT of `principal_for_token`
unfoldable pub find_token : (Text → Text) → ℕ → Text → Roster → Option (Person × Token)
find_token digest now token r =
    elim (find (λ k. text_eq k.sha256 (digest token) && live now k) r.tokens) [
      | none ↦ none
      | some k ↦ elim (holder r k.tenant_id k.subject) [ none ↦ none | some p ↦ some (p, k) ]
    ]

unfoldable pub recognised : ℕ → Roster → Option (Person × Token) → Outcome (Principal × ℕ) × Roster
unfolding as_principal
recognised now r none = (unrecognised, r)
recognised now r (some (p, k)) = (
  ok (as_principal p, k.id),
  record r {
    tokens = update_rows (λ row. row.id == k.id && stale now row.last_used_at) (used now) r.tokens;
  },
)

unfoldable pub principal_for_token :
    (Text → Text) → ℕ → Text → Roster → Outcome (Principal × ℕ) × Roster
unfolding find_token recognised
principal_for_token digest now token r =
    if is_empty token then (unrecognised, r) else recognised now r (find_token digest now token r)

unfoldable pub new_token : (Text → Text) → ℕ → ℕ → Text → Text → Text → ℕ → Text → Option ℕ → Token
new_token digest t now actor subject label id token expires_at = record {
  id = id;
  tenant_id = t;
  subject = subject;
  label = label;
  prefix = take 10 token;
  sha256 = digest token;
  created_at = now;
  created_by = actor;
  last_used_at = none;
  expires_at = expires_at;
  revoked_at = none;
}

unfoldable pub issue_checked :
    (Text → Text)
    → ℕ
    → ℕ
    → Text
    → Text
    → ℕ
    → Text
    → Option ℕ
    → Roster
    → Outcome Text
    → Outcome TokenGrant × Roster
unfolding new_token
issue_checked digest t now actor label id token expires_at r (refused why) = (refused why, r)
issue_checked digest t now actor label id token expires_at r unrecognised = (unrecognised, r)
issue_checked digest t now actor label id token expires_at r (ok subject) =
    if is_empty label || ltb 80 (length label)
    then (refused no_label, r)
    else if not (not_expired now expires_at)
    then (refused expired_already, r)
    else if not (any (named t subject) r.people)
    then (refused does_not_exist, r)
    else (
      ok (record {
        token = token;
        id = id;
        subject = subject;
        label = label;
        prefix = take 10 token;
        expires_at = expires_at;
      }),
      record r {
        tokens = r.tokens ++ new_token digest t now actor subject label id token expires_at ∷ [];
      },
    )

-- `secret` is the value of `secrets.token_urlsafe`.
unfoldable pub issue_token :
    (lower digest : Text → Text)
    → ℕ
    → ℕ
    → Text
    → Text
    → Text
    → ℕ
    → Text
    → Option ℕ
    → Roster
    → Outcome TokenGrant × Roster
unfolding issue_checked subject_of one_line
issue_token lower digest t now actor subject label id secret expires_at r =
    issue_checked digest t now actor (one_line label) id (token_prefix ++ secret) expires_at r
      (subject_of lower subject)

abbrev pub revoke : ℕ → Token → Token
revoke now k = record k { revoked_at = some now }

abbrev pub cut_off : ℕ → Visit → Visit
cut_off now v = record v { revoked_at = some now }

-- the id is a text that reads as a UUID, or none
unfoldable pub revoke_token : ℕ → ℕ → Option ℕ → Roster → Outcome Text × Roster
revoke_token t now none r = (refused no_token, r)
revoke_token t now (some id) r =
    elim (find (λ k. mine t k.tenant_id && (k.id == id && not (is_some k.revoked_at))) r.tokens) [
      | none ↦ (refused no_token, r)
      | some k ↦
          let tokens =
            update_rows (λ row. mine t row.tenant_id && row.id == id) (revoke now) r.tokens in
          let visits =
            update_rows
              (λ v. mine t v.tenant_id && (v.token_id == id && not (is_some v.revoked_at)))
              (cut_off now) r.visits in
          (ok k.subject, record r { tokens = tokens; visits = visits })
    ]
