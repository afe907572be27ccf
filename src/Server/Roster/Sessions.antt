-- ===== src/Server/Roster/Sessions.antt =====
-- src/stigmergy/server/roster.py: backoffice sessions and the first administrator. One clock gives
-- the database's time and the service's; the random session value is an argument.
use stigmergy.Prelude.{
  ℕ, ◌+◌, ◌*◌, Bool, true, false, ◌&&◌, ◌||◌, not, Option, none, some, [], ◌∷◌, ◌++◌, ltb, ◌==◌,
  if◌then◌else◌, any, find, keep, update_rows, is_some, is_empty, Text, codes, text_eq,
}
use stigmergy.Kernel.Layers.{public}
use stigmergy.Capture.Schema.{seconds}
use stigmergy.Server.Roster.{
  Person, Token, Visit, Roster, Principal, admin_exists, Outcome, ok, refused, unrecognised,
  brain_admins, mine, as_principal, admin_count,
}
use stigmergy.Server.Roster.Names.{Form}
use stigmergy.Server.Roster.People.{create_principal}
use stigmergy.Server.Roster.Tokens.{TokenGrant, live, holder, principal_for_token, issue_token}

abbrev pub session_idle : ℕ
session_idle = seconds (8 * 3600)

abbrev pub session_absolute : ℕ
session_absolute = seconds (7 * 86_400)

pub record Session : Type 0 where
  pub principal : Principal
  pub token_id : ℕ
  pub expires_at : ℕ

abbrev revoked_before : ℕ → Option ℕ → Bool
revoked_before now none = false
revoked_before now (some at) = ltb (at + session_absolute) now

-- WHERE expires_at < now() - SESSION_ABSOLUTE OR revoked_at < now() - SESSION_ABSOLUTE
abbrev pub outdated : ℕ → ℕ → Visit → Bool
outdated t now v =
    mine t v.tenant_id
    && (ltb (v.expires_at + session_absolute) now || revoked_before now v.revoked_at)

unfoldable pub new_visit : (Text → Text) → ℕ → Text → Principal → ℕ → Visit
new_visit digest now value who token_id = record {
  sha256 = digest value;
  tenant_id = who.tenant;
  subject = who.subject;
  token_id = token_id;
  created_at = now;
  last_seen_at = now;
  expires_at = now + session_absolute;
  revoked_at = none;
}

-- the block for the principal's tenant; a value that is taken already stops at the primary key
unfoldable pub enter :
    (Text → Text) → ℕ → Text → Outcome (Principal × ℕ) × Roster → Outcome (Text × Session) × Roster
unfolding new_visit
enter digest now value (refused why, r) = (refused why, r)
enter digest now value (unrecognised, r) = (unrecognised, r)
enter digest now value (ok (who, token_id), r) =
    let visits = keep (λ v. not (outdated who.tenant now v)) r.visits in
    if any (λ v. text_eq v.sha256 (digest value)) visits
    then (unrecognised, record r { visits = visits })
    else (
      ok (
        value,
        record { principal = who; token_id = token_id; expires_at = now + session_absolute },
      ),
      record r { visits = visits ++ new_visit digest now value who token_id ∷ [] },
    )

unfoldable pub open_session :
    (Text → Text) → ℕ → Text → Text → Roster → Outcome (Text × Session) × Roster
unfolding enter principal_for_token
open_session digest now token value r =
    enter digest now value (principal_for_token digest now token r)

-- what the SELECT of `session_principal` asks of the session itself
abbrev pub valid_visit : ℕ → Visit → Bool
valid_visit now v =
    not (is_some v.revoked_at) && (ltb now v.expires_at && ltb now (v.last_seen_at + session_idle))

-- the live token that opened the session
abbrev pub key_of : Roster → ℕ → ℕ → Option Token
key_of r now id = find (λ k. k.id == id && live now k) r.tokens

unfoldable pub find_visit : (Text → Text) → ℕ → Text → Roster → Option (Person × Visit)
find_visit digest now value r =
    elim (find (λ v. text_eq v.sha256 (digest value) && valid_visit now v) r.visits) [
      | none ↦ none
      | some v ↦ elim (key_of r now v.token_id) [
        | none ↦ none
        | some k ↦ elim (holder r v.tenant_id v.subject) [ none ↦ none | some p ↦ some (p, v) ]
      ]
    ]

abbrev seen : ℕ → Visit → Visit
seen now v = record v { last_seen_at = now }

unfoldable pub entered :
    (Text → Text) → ℕ → Text → Roster → Option (Person × Visit) → Outcome Session × Roster
unfolding as_principal
entered digest now value r none = (unrecognised, r)
entered digest now value r (some (p, v)) = (
  ok (record { principal = as_principal p; token_id = v.token_id; expires_at = v.expires_at }),
  record r {
    visits =
        update_rows
          (λ row. text_eq row.sha256 (digest value) && ltb (row.last_seen_at + seconds 60) now)
          (seen now) r.visits;
  },
)

unfoldable pub session_principal : (Text → Text) → ℕ → Text → Roster → Outcome Session × Roster
unfolding find_visit entered
session_principal digest now value r =
    if is_empty value
    then (unrecognised, r)
    else entered digest now value r (find_visit digest now value r)

abbrev ended : ℕ → Visit → Visit
ended now v = record v { revoked_at = some now }

unfoldable pub close_session : (Text → Text) → ℕ → Text → Roster → Roster
close_session digest now value r = if is_empty value then r else record r {
  visits =
      update_rows (λ v. text_eq v.sha256 (digest value) && not (is_some v.revoked_at)) (ended now)
        r.visits;
}

abbrev pub first_admin : Text → Form
first_admin display_name = record {
  display_name = some display_name;
  kind = some (codes "person");
  is_admin = some true;
  groups = some (some brain_admins ∷ []);
  default_audience = some (some public ∷ []);
}

-- A refusal or an unknown identity inside rolls the whole transaction back.
unfoldable pub all_or_nothing : {A : Type 0} → Roster → Outcome A × Roster → Outcome A × Roster
all_or_nothing r (ok a, left) = (ok a, left)
all_or_nothing r (refused why, left) = (refused why, r)
all_or_nothing r (unrecognised, left) = (unrecognised, r)

unfoldable pub then_issue :
    (Roster → Outcome TokenGrant × Roster)
    → Outcome Principal × Roster
    → Outcome TokenGrant × Roster
then_issue issue (ok who, r) = issue r
then_issue issue (refused why, r) = (refused why, r)
then_issue issue (unrecognised, r) = (unrecognised, r)

unfoldable pub bootstrap_admin :
    (lower digest : Text → Text)
    → ℕ
    → ℕ
    → Text
    → Text
    → Text
    → ℕ
    → Text
    → Roster
    → Outcome TokenGrant × Roster
unfolding admin_count create_principal issue_token all_or_nothing then_issue
bootstrap_admin lower digest t now actor subject display_name id secret r =
    if ltb 0 (admin_count t r)
    then (refused admin_exists, r)
    else all_or_nothing r (
        then_issue (issue_token lower digest t now actor subject (codes "bootstrap") id secret none)
          (create_principal lower t now actor subject (first_admin display_name) r))
