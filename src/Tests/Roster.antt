-- ===== src/Tests/Roster.antt =====
-- A roster of two people (src/stigmergy/server/roster.py): its operations, and its runs.
use stigmergy.Prelude.{
  ℕ, ◌+◌, ◌≡◌, ◌≢◌, refl, ap, Bool, true, false, not, none, some, inl, inr, [], ◌∷◌, arith, ◌==◌,
  Text, codes, strip, lstrip, rstrip, is_space, one_line, split, split_from, join, split_at,
  text_eq, update_rows,
}
use stigmergy.Kernel.Layers.{is_layer_name, matches_name}
use stigmergy.Server.Roster.{
  person, Person, Group, Token, Roster, Principal, ok, refused, unrecognised, admin_exists,
  brain_admins, named,
}
use stigmergy.Server.Roster.Names.{
  fold_ascii, subject_of, is_email, inner_dot, Form, Fields, validated, kind_of, groups_of,
  checked_names, check_group_names, check_names, good_group, matches_group, checked_kind,
  checked_groups, checked_default,
}
use stigmergy.Server.Roster.People.{
  principal, overlay, updated, switched, switch, set_disabled, set_disabled_checked,
  update_principal, delete_principal,
}
use stigmergy.Server.Roster.Tokens.{principal_for_token, revoke_token}
use stigmergy.Server.Roster.Sessions.{Session, session_absolute, session_principal, bootstrap_admin}
use stigmergy.Server.Roster.Steps.{Course, begun, then_step, dismiss, disable}
use stigmergy.Server.Roster.Valid.{IsOrderly}
use stigmergy.Server.Roster.Kept.{Course-IsOrderly}
use stigmergy.Server.Roster.Admins.{HasAdmin, Course-HasAdmin}
use stigmergy.Server.Roster.Cutoff.{revoke_token-final}
use stigmergy.Server.Roster.Shut.{set_disabled-final}
use stigmergy.Server.Roster.Stored.{update_principal-disabled}

abbrev pub ana : Text
ana = codes "ana@x.io"

abbrev pub bob : Text
bob = codes "bob@x.io"

abbrev pub sales : Text
sales = codes "sales"

abbrev pub group : Text → Group
group name = record {
  tenant_id = 1;
  name = name;
  description = [];
  created_at = 0;
  created_by = [];
}

abbrev pub ana_row : Person
ana_row = record {
  tenant_id = 1;
  subject = ana;
  display_name = codes "Ana";
  kind = person;
  is_admin = true;
  groups = brain_admins ∷ [];
  default_audience = some (codes "public" ∷ []);
  disabled_at = none;
  created_at = 0;
  created_by = [];
  updated_at = 0;
  updated_by = [];
}

abbrev pub bob_row : Person
bob_row = record ana_row {
  subject = bob;
  display_name = codes "Bob";
  is_admin = false;
  groups = sales ∷ [];
  default_audience = some (sales ∷ []);
}

-- Identity stands for the digest, and ASCII lowering for `str.lower`.
abbrev digest : Text → Text
digest t = t

abbrev pub key7 : Token
key7 = record {
  id = 7;
  tenant_id = 1;
  subject = bob;
  label = codes "laptop";
  prefix = [];
  sha256 = codes "stg_s";
  created_at = 0;
  created_by = [];
  last_used_at = none;
  expires_at = none;
  revoked_at = none;
}

abbrev pub acme : Roster
acme = record {
  people = ana_row ∷ bob_row ∷ [];
  groups = group brain_admins ∷ group sales ∷ [];
  tokens = key7 ∷ [];
  visits = [];
  channels = [];
  workspaces = (record { id = 1; suspended = false }) ∷ [];
}

apart : ◌≡◌ {A = ℕ × Text} (1, bob) (1, ana) → ⊥
unfolding text_eq
apart e = absurd (ground (arith, ap (λ (k : ℕ × Text). text_eq k.1 bob) e))

pub acme-IsOrderly : IsOrderly acme
unfolding text_eq is_layer_name matches_name
acme-IsOrderly = record {
  people = (
    record {
      admin_is_person = λ h. refl;
      admin_unrestricted = λ h. inl refl;
      known = λ g m. elim m [ inl e ↦ rw e refl | inr e ↦ absurd e ];
      layered = λ g m. elim m [ inl e ↦ rw e refl | inr e ↦ absurd e ];
      default_is_own = (codes "public", refl, inl refl);
    },
    (
      record {
        admin_is_person = λ h. refl;
        admin_unrestricted = λ h. absurd (cc h);
        known = λ g m. elim m [ inl e ↦ rw e refl | inr e ↦ absurd e ];
        layered = λ g m. elim m [ inl e ↦ rw e refl | inr e ↦ absurd e ];
        default_is_own = (sales, refl, inr (inl refl, refl));
      },
      tt,
    ),
  );
  keys = ((apart, tt), (tt, tt));
  channels = tt;
}

abbrev all_but_7 : ℕ → Bool
all_but_7 id = not (id == 7)

-- Ana tries to delete herself, then disables Bob.
abbrev tried : Roster
tried = (delete_principal fold_ascii 1 ana acme).1

abbrev without_bob : Roster
without_bob = (set_disabled fold_ascii 1 20 ana bob true tried).1

abbrev run : Course all_but_7 fold_ascii fold_ascii digest acme without_bob
run = then_step (then_step begun (dismiss 1 ana)) (disable 1 20 ana bob true)

Course-IsOrderly_example : IsOrderly without_bob
Course-IsOrderly_example =
    Course-IsOrderly all_but_7 fold_ascii fold_ascii digest run acme-IsOrderly

Course-HasAdmin_example :
    HasAdmin 1 without_bob
    × ((now : ℕ) (actor subject name : Text) (id : ℕ) (secret : Text)
        → bootstrap_admin fold_ascii digest 1 now actor subject name id secret without_bob
          ≡ (refused admin_exists, without_bob))
Course-HasAdmin_example =
    Course-HasAdmin all_but_7 1 fold_ascii fold_ascii digest run acme-IsOrderly
      (ana_row, inl refl, refl)

revoked : (revoke_token 1 30 (some 7) acme).0 ≡ ok bob
unfolding revoke_token
revoked = refl

revoke_token-final_example :
    ((who : Principal) (i : ℕ)
      → (principal_for_token digest 40 (codes "stg_s") (revoke_token 1 30 (some 7) acme).1).0
        ≡ ok (who, i)
      → i ≢ 7)
    × ((v : Session)
        → (session_principal digest 40 (codes "stg_s") (revoke_token 1 30 (some 7) acme).1).0 ≡ ok v
        → v.token_id ≢ 7)
revoke_token-final_example =
    revoke_token-final all_but_7 fold_ascii fold_ascii digest 1 30 7 acme
      (revoke_token 1 30 (some 7) acme).1 bob (tt, tt) refl revoked begun 40 (codes "stg_s")

disabled : (set_disabled fold_ascii 1 20 ana bob true acme).0 ≡ ok bob
unfolding set_disabled subject_of is_email inner_dot strip lstrip rstrip is_space split_at
    set_disabled_checked switch switched text_eq
disabled = refl

abbrev bob_off : Roster
bob_off = (set_disabled fold_ascii 1 20 ana bob true acme).1

set_disabled-final_example :
    ((who : Principal)
      → principal fold_ascii 1 (codes "stg_s") bob_off ≡ ok who
      → who.subject ≢ bob)
    × ((who : Principal) (i : ℕ)
        → (principal_for_token digest 40 (codes "stg_s") bob_off).0 ≡ ok (who, i)
        → who.tenant ≡ 1
        → who.subject ≢ bob)
    × ((v : Session) (again : ℕ) (by name : Text)
        → (session_principal digest 40
            (codes "stg_s")
            (set_disabled fold_ascii 1 again by name false bob_off).1).0
          ≡ ok v
        → v.principal.tenant ≡ 1
        → v.principal.subject ≢ bob)
    × ((v : Session)
        → (session_principal digest 40 (codes "stg_s") bob_off).0 ≡ ok v
        → v.principal.tenant ≡ 1
        → v.principal.subject ≢ bob)
set_disabled-final_example =
    set_disabled-final fold_ascii digest 1 20 ana bob bob acme disabled 40 (codes "stg_s")

-- Bob signs in with his token.
abbrev bob_principal : Principal
bob_principal = record {
  subject = bob;
  display_name = codes "Bob";
  groups = sales ∷ [];
  default_audience = some (sales ∷ []);
  kind = person;
  is_admin = false;
  tenant = 1;
}

abbrev bob_session : Session
bob_session = record { principal = bob_principal; token_id = 7; expires_at = 50 + session_absolute }

-- Bob, disabled, is given another display name.
abbrev bob_out : Person
bob_out = record bob_row { disabled_at = some 20 }

abbrev shut_acme : Roster
shut_acme = record acme { people = ana_row ∷ bob_out ∷ [] }

abbrev renaming : Form
renaming = record {
  display_name = some (codes "Rob");
  kind = none;
  is_admin = none;
  groups = none;
  default_audience = none;
}

abbrev renamed : Fields
renamed = record {
  display_name = codes "Rob";
  kind = person;
  is_admin = false;
  groups = sales ∷ [];
  default_layer = sales;
}

renaming_passes : validated 1 shut_acme (overlay bob_out renaming) ≡ ok renamed
unfolding validated overlay kind_of groups_of checked_names check_group_names check_names good_group
    matches_group checked_kind checked_groups checked_default one_line split split_from join strip
    lstrip rstrip is_space is_layer_name matches_name text_eq
renaming_passes = refl

bob_named : subject_of fold_ascii bob ≡ ok bob
unfolding subject_of is_email inner_dot strip lstrip rstrip is_space split_at
bob_named = refl

bob_stripped : fold_ascii (strip bob) ≡ bob
unfolding strip lstrip rstrip is_space
bob_stripped = refl

update_principal-disabled_example : update_principal fold_ascii 1 30 ana bob renaming shut_acme ≡ (
  unrecognised,
  record shut_acme { people = update_rows (named 1 bob) (updated 30 ana renamed) shut_acme.people },
)
update_principal-disabled_example =
    update_principal-disabled fold_ascii 1 30 ana shut_acme bob bob renaming bob_out renamed
      acme-IsOrderly.keys bob_named bob_stripped (unfold text_eq in refl) refl renaming_passes refl
