-- ===== src/Server/Roster.antt =====
-- src/stigmergy/server/roster.py: people, groups, bearer tokens, backoffice sessions and Slack
-- channels. A connection acts for one tenant, and the row policy shows it that tenant's rows; a UUID
-- is a number and a time is in microseconds. `lower` and `upper` are Python's `str.lower` and
-- `str.upper`, `digest` is `hash_token`, and a refused operation has rolled its transaction back.
pub mod Names
pub mod People
pub mod Groups
pub mod Tokens
pub mod Sessions
pub mod Effects
pub mod Steps
pub mod Admins
pub mod Checked
pub mod Valid
pub mod Kept
pub mod Found
pub mod Cutoff
pub mod Shut
pub mod Stored
pub mod SignIn
use stigmergy.Prelude.{
  ℕ, Bool, true, false, ◌&&◌, not, Option, none, some, List, ◌==◌, is_some, any, find, length, keep,
  Text, codes, text_eq, elem,
}
use stigmergy.Kernel.Tenancy.{visible}
use stigmergy.Kernel.Tenancy.Scope.{acting_for}

pub data Kind : Type 0 where
  person agent : Kind

-- one row of roster_principals
pub record Person : Type 0 where
  pub tenant_id : ℕ
  pub subject : Text
  pub display_name : Text
  pub kind : Kind
  pub is_admin : Bool
  pub groups : List Text
  pub default_audience : Option (List Text)
  pub disabled_at : Option ℕ
  pub created_at : ℕ
  pub created_by : Text
  pub updated_at : ℕ
  pub updated_by : Text

pub record Group : Type 0 where
  pub tenant_id : ℕ
  pub name : Text
  pub description : Text
  pub created_at : ℕ
  pub created_by : Text

pub record Token : Type 0 where
  pub id : ℕ
  pub tenant_id : ℕ
  pub subject : Text
  pub label : Text
  pub prefix : Text
  pub sha256 : Text
  pub created_at : ℕ
  pub created_by : Text
  pub last_used_at : Option ℕ
  pub expires_at : Option ℕ
  pub revoked_at : Option ℕ

-- one row of roster_sessions
pub record Visit : Type 0 where
  pub sha256 : Text
  pub tenant_id : ℕ
  pub subject : Text
  pub token_id : ℕ
  pub created_at : ℕ
  pub last_seen_at : ℕ
  pub expires_at : ℕ
  pub revoked_at : Option ℕ

pub record Channel : Type 0 where
  pub tenant_id : ℕ
  pub channel_id : Text
  pub groups : Option (List Text)
  pub updated_at : ℕ
  pub updated_by : Text

-- a row of tenants, as far as sign-in reads it
pub record Workspace : Type 0 where
  pub id : ℕ
  pub suspended : Bool

pub record Roster : Type 0 where
  pub people : List Person
  pub groups : List Group
  pub tokens : List Token
  pub visits : List Visit
  pub channels : List Channel
  pub workspaces : List Workspace

pub record Principal : Type 0 where
  pub subject : Text
  pub display_name : Text
  pub groups : List Text
  pub default_audience : Option (List Text)
  pub kind : Kind
  pub is_admin : Bool
  pub tenant : ℕ

-- the messages of RosterRefused
pub data Refusal : Type 0 where
  not_an_email invalid_group unknown_group not_a_layer no_display_name no_kind : Refusal
  admin_not_person admin_restricted no_default foreign_default already_exists : Refusal
  does_not_exist last_admin no_label expired_already no_token group_name : Refusal
  long_description unrestricted_group group_in_use index_behind holds_knowledge : Refusal
  being_filed no_channel one_layer unrestricted_channel not_mapped admin_exists : Refusal

-- an operation's answer: a value, RosterRefused, or IdentityError
pub data Outcome {ℓ} (A : Type ℓ) : Type ℓ where
  ok : A → Outcome A
  refused : Refusal → Outcome A
  unrecognised : Outcome A

abbrev pub brain_admins : Text
brain_admins = codes "brain-admins"

-- the row policy, on a connection that acts for the tenant
abbrev pub mine : ℕ → ℕ → Bool
mine t u = visible (acting_for t) u

abbrev pub named : ℕ → Text → Person → Bool
named t s p = mine t p.tenant_id && text_eq p.subject s

abbrev pub enabled : Person → Bool
enabled p = not (is_some p.disabled_at)

-- WHERE is_admin AND disabled_at IS NULL
abbrev pub administrator : ℕ → Person → Bool
administrator t p = mine t p.tenant_id && (p.is_admin && enabled p)

unfoldable pub admin_count : ℕ → Roster → ℕ
admin_count t r = length (keep (administrator t) r.people)

unfoldable pub admins_left : ℕ → Text → Roster → ℕ
admins_left t excluding r =
    length (keep (λ p. administrator t p && not (text_eq p.subject excluding)) r.people)

unfoldable pub as_principal : Person → Principal
as_principal p = record {
  subject = p.subject;
  display_name = p.display_name;
  groups = p.groups;
  default_audience = p.default_audience;
  kind = p.kind;
  is_admin = p.is_admin;
  tenant = p.tenant_id;
}

-- _LIVE_TENANT
abbrev pub live_tenant : Roster → ℕ → Bool
live_tenant r t = any (λ w. (w.id == t) && not w.suspended) r.workspaces
