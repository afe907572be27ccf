-- ===== src/Server/Roster/People.antt =====
-- src/stigmergy/server/roster.py: administering people. The roster's lock makes each of these
-- operations one step; `now` is the transaction's time.
use stigmergy.Prelude.{
  ℕ, Bool, ◌&&◌, ◌||◌, not, Option, none, some, List, [], ◌∷◌, ◌++◌, ◌==◌, if◌then◌else◌, map, any,
  find, keep, update_rows, is_some, is_empty, Text, codes, strip, text_eq,
}
use stigmergy.Server.Roster.{
  Kind, person, agent, Person, Token, Visit, Roster, Principal, last_admin, already_exists,
  does_not_exist, Outcome, ok, refused, unrecognised, mine, named, enabled, admins_left,
  as_principal, live_tenant,
}
use stigmergy.Server.Roster.Names.{subject_of, Form, Fields, validated}

-- `principal`: no subject is the empty text, and the subject is stripped and lowered
unfoldable pub principal : (Text → Text) → ℕ → Text → Roster → Outcome Principal
unfolding strip as_principal
principal lower t subject r =
    if is_empty subject
    then unrecognised
    else elim (find
        (λ p. named t (lower (strip subject)) p && (enabled p && live_tenant r p.tenant_id))
        r.people) [ none ↦ unrecognised | some p ↦ ok (as_principal p) ]

unfoldable pub new_person : ℕ → ℕ → Text → Text → Fields → Person
new_person t now actor subject values = record {
  tenant_id = t;
  subject = subject;
  display_name = values.display_name;
  kind = values.kind;
  is_admin = values.is_admin;
  groups = values.groups;
  default_audience = some (values.default_layer ∷ []);
  disabled_at = none;
  created_at = now;
  created_by = actor;
  updated_at = now;
  updated_by = actor;
}

-- the INSERT of `create_principal`, for a checked subject and form
unfoldable pub insert_person : ℕ → ℕ → Text → Text → Roster → Outcome Fields → Outcome Text × Roster
unfolding new_person
insert_person t now actor subject r (refused why) = (refused why, r)
insert_person t now actor subject r unrecognised = (unrecognised, r)
insert_person t now actor subject r (ok values) =
    if any (named t subject) r.people
    then (refused already_exists, r)
    else (ok subject, record r { people = r.people ++ new_person t now actor subject values ∷ [] })

unfoldable pub create_checked : ℕ → ℕ → Text → Form → Roster → Outcome Text → Outcome Text × Roster
unfolding insert_person validated
create_checked t now actor form r (refused why) = (refused why, r)
create_checked t now actor form r unrecognised = (unrecognised, r)
create_checked t now actor form r (ok subject) =
    insert_person t now actor subject r (validated t r form)

-- the answer of an operation that ends by reading the principal, after its transaction
unfoldable pub then_read : (Text → Text) → ℕ → Outcome Text × Roster → Outcome Principal × Roster
unfolding principal
then_read lower t (refused why, r) = (refused why, r)
then_read lower t (unrecognised, r) = (unrecognised, r)
then_read lower t (ok subject, r) = (principal lower t subject r, r)

unfoldable pub create_principal :
    (Text → Text) → ℕ → ℕ → Text → Text → Form → Roster → Outcome Principal × Roster
unfolding create_checked then_read subject_of
create_principal lower t now actor subject form r =
    then_read lower t (create_checked t now actor form r (subject_of lower subject))

abbrev pub kind_name : Kind → Text
kind_name person = codes "person"
kind_name agent = codes "agent"

abbrev pub or_else {ℓ} : {A : Type ℓ} → Option A → Option A → Option A
or_else none d = d
or_else (some a) d = some a

abbrev pub stored_list : Option (List Text) → Option (List (Option Text))
stored_list none = none
stored_list (some xs) = some (map some xs)

-- {**stored, **data}
unfoldable pub overlay : Person → Form → Form
overlay p form = record {
  display_name = or_else form.display_name (some p.display_name);
  kind = or_else form.kind (some (kind_name p.kind));
  is_admin = or_else form.is_admin (some p.is_admin);
  groups = or_else form.groups (some (map some p.groups));
  default_audience = or_else form.default_audience (stored_list p.default_audience);
}

unfoldable pub updated : ℕ → Text → Fields → Person → Person
updated now actor values p = record p {
  display_name = values.display_name;
  kind = values.kind;
  is_admin = values.is_admin;
  groups = values.groups;
  default_audience = some (values.default_layer ∷ []);
  updated_at = now;
  updated_by = actor;
}

unfoldable pub write_fields :
    ℕ → ℕ → Text → Text → Person → Roster → Outcome Fields → Outcome Text × Roster
unfolding admins_left updated
write_fields t now actor subject stored r (refused why) = (refused why, r)
write_fields t now actor subject stored r unrecognised = (unrecognised, r)
write_fields t now actor subject stored r (ok values) =
    if (stored.is_admin && not values.is_admin) && admins_left t subject r == 0
    then (refused last_admin, r)
    else (
      ok subject,
      record r { people = update_rows (named t subject) (updated now actor values) r.people },
    )

unfoldable pub update_checked : ℕ → ℕ → Text → Form → Roster → Outcome Text → Outcome Text × Roster
unfolding write_fields validated overlay
update_checked t now actor form r (refused why) = (refused why, r)
update_checked t now actor form r unrecognised = (unrecognised, r)
update_checked t now actor form r (ok subject) = elim (find (named t subject) r.people) [
  | none ↦ (refused does_not_exist, r)
  | some stored ↦ write_fields t now actor subject stored r (validated t r (overlay stored form))
]

unfoldable pub update_principal :
    (Text → Text) → ℕ → ℕ → Text → Text → Form → Roster → Outcome Principal × Roster
unfolding update_checked then_read subject_of
update_principal lower t now actor subject form r =
    then_read lower t (update_checked t now actor form r (subject_of lower subject))

unfoldable pub switched : ℕ → Text → Bool → Person → Person
switched now actor disabled p = record p {
  disabled_at = if disabled then some now else none;
  updated_at = now;
  updated_by = actor;
}

abbrev pub close_visit : ℕ → Visit → Visit
close_visit now v = record v { revoked_at = some now }

-- UPDATE roster_sessions SET revoked_at = now() WHERE subject = %s AND revoked_at IS NULL
abbrev pub visit_of : ℕ → Text → Visit → Bool
visit_of t s v = (mine t v.tenant_id && text_eq v.subject s) && not (is_some v.revoked_at)

unfoldable pub switch : ℕ → ℕ → Text → Bool → Text → Roster → Roster
unfolding switched
switch t now actor disabled subject r =
    let people = update_rows (named t subject) (switched now actor disabled) r.people in
    let closed = update_rows (visit_of t subject) (close_visit now) r.visits in
    record r { people = people; visits = if disabled then closed else r.visits }

-- an enabled administrator with no other beside it
abbrev pub is_last : ℕ → Text → Person → Roster → Bool
is_last t subject stored r = (stored.is_admin && enabled stored) && admins_left t subject r == 0

unfoldable pub set_disabled_checked :
    ℕ → ℕ → Text → Bool → Roster → Outcome Text → Outcome Text × Roster
unfolding switch admins_left
set_disabled_checked t now actor disabled r (refused why) = (refused why, r)
set_disabled_checked t now actor disabled r unrecognised = (unrecognised, r)
set_disabled_checked t now actor disabled r (ok subject) = elim (find (named t subject) r.people) [
  | none ↦ (refused does_not_exist, r)
  | some stored ↦
      if disabled && is_last t subject stored r
      then (refused last_admin, r)
      else (ok subject, switch t now actor disabled subject r)
]

unfoldable pub set_disabled :
    (Text → Text) → ℕ → ℕ → Text → Text → Bool → Roster → Outcome Text × Roster
unfolding set_disabled_checked subject_of
set_disabled lower t now actor subject disabled r =
    set_disabled_checked t now actor disabled r (subject_of lower subject)

abbrev pub token_of : ℕ → Text → Token → Bool
token_of t s k = mine t k.tenant_id && text_eq k.subject s

-- a session of the person, or one that a token of the person opened
abbrev pub falls_with : ℕ → Text → List Token → Visit → Bool
falls_with t s tokens v =
    (mine t v.tenant_id && text_eq v.subject s)
    || any (λ k. token_of t s k && k.id == v.token_id) tokens

-- the DELETE, and what the foreign keys delete with it
unfoldable pub remove_person : ℕ → Text → Roster → Roster
remove_person t s r = record r {
  people = keep (λ p. not (named t s p)) r.people;
  tokens = keep (λ k. not (token_of t s k)) r.tokens;
  visits = keep (λ v. not (falls_with t s r.tokens v)) r.visits;
}

unfoldable pub delete_checked : ℕ → Roster → Outcome Text → Outcome Text × Roster
unfolding remove_person admins_left
delete_checked t r (refused why) = (refused why, r)
delete_checked t r unrecognised = (unrecognised, r)
delete_checked t r (ok subject) = elim (find (named t subject) r.people) [
  | none ↦ (refused does_not_exist, r)
  | some stored ↦
      if is_last t subject stored r
      then (refused last_admin, r)
      else (ok subject, remove_person t subject r)
]

unfoldable pub delete_principal : (Text → Text) → ℕ → Text → Roster → Outcome Text × Roster
unfolding delete_checked subject_of
delete_principal lower t subject r = delete_checked t r (subject_of lower subject)
