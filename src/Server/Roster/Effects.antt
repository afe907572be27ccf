-- ===== src/Server/Roster/Effects.antt =====
-- The effects that the operations of src/stigmergy/server/roster.py have on the roster, each on one
-- table.
pub mod People
pub mod Others
use stigmergy.Prelude.{
  ℕ, ◌≡◌, refl, ap, Bool, true, false, ◌&&◌, ◌||◌, not, Option, none, some, inl, inr, List, [], ◌∷◌,
  ◌++◌, ◌==◌, any, find, keep, update_rows, is_some, Text, text_eq, Bool-cases, Option-cases,
  if◌then◌else◌, arith, In,
}
use stigmergy.Server.Roster.{
  Person, Group, Token, Visit, Channel, Roster, Principal, Outcome, ok, refused, unrecognised, mine,
  named, brain_admins, admins_left,
}
use stigmergy.Server.Roster.Names.{subject_of, Form, Fields, validated, groups_of}
use stigmergy.Server.Roster.People.{
  then_read, new_person, insert_person, create_checked, create_principal, updated, write_fields,
  overlay, update_checked, update_principal, switched, switch, is_last, set_disabled_checked,
  set_disabled, token_of, remove_person, delete_checked, delete_principal,
}
use stigmergy.Server.Roster.Groups.{
  Elsewhere, group_named, create_group, described, update_group, person_uses, channel_uses,
  refuse_unless_empty, drop_group, delete_group, checked_audience, channel_named, mapped,
  put_channel, set_channel, delete_channel,
}
use stigmergy.Server.Roster.Tokens.{
  TokenGrant, find_token, recognised, principal_for_token, new_token, issue_checked, issue_token,
  revoke, revoke_token,
}
use stigmergy.Server.Roster.Sessions.{
  enter, open_session, find_visit, entered, session_principal, close_session, first_admin,
  all_or_nothing, then_issue, bootstrap_admin,
}

-- an UPDATE of a token that keeps it the same token, and revoked if it was
pub record Retouched (k l : Token) : Type 0 where
  pub same_id : l.id ≡ k.id
  pub still_revoked : is_some k.revoked_at ≡ true → is_some l.revoked_at ≡ true

module _ (issuable : ℕ → Bool) where
  -- `issuable` tells the ids that a new token may get.
  pub data Effect (r : Roster) : Roster → Type 0 where
    inserted :
        (t now : ℕ) (actor subject : Text) (form : Form) (values : Fields)
        → validated t r form ≡ ok values
        → any (named t subject) r.people ≡ false
        → Effect r (record r { people = r.people ++ new_person t now actor subject values ∷ [] })
    rewritten :
        (t now : ℕ) (actor subject : Text) (stored : Person) (form : Form) (values : Fields)
        → find (named t subject) r.people ≡ some stored
        → validated t r form ≡ ok values
        → ((stored.is_admin && not values.is_admin) && (admins_left t subject r == 0)) ≡ false
        → Effect r (record r {
          people = update_rows (named t subject) (updated now actor values) r.people;
        })
    turned :
        (t now : ℕ) (actor subject : Text) (disabled : Bool) (stored : Person)
        → find (named t subject) r.people ≡ some stored
        → (disabled && is_last t subject stored r) ≡ false
        → Effect r (record r {
          people = update_rows (named t subject) (switched now actor disabled) r.people;
        })
    removed :
        (t : ℕ) (subject : Text) (stored : Person)
        → find (named t subject) r.people ≡ some stored
        → is_last t subject stored r ≡ false
        → Effect r (record r { people = keep (λ p. not (named t subject p)) r.people })
    grouped : (row : Group) → Effect r (record r { groups = r.groups ++ row ∷ [] })
    redescribed :
        (t : ℕ) (name line : Text)
        → Effect r
            (record r { groups = update_rows (group_named t name) (described line) r.groups })
    ungrouped :
        (t : ℕ) (name : Text)
        → text_eq name brain_admins ≡ false
        → any (person_uses t name) r.people ≡ false
        → any (channel_uses t name) r.channels ≡ false
        → Effect r (record r { groups = keep (λ g. not (group_named t name g)) r.groups })
    first_mapped :
        (t now : ℕ) (actor id : Text) (given : Option (List (Option Text)))
        (audience : Option (List Text))
        → checked_audience t r given ≡ ok audience
        → Effect r (record r {
          channels =
              r.channels
              ++ (record {
                tenant_id = t;
                channel_id = id;
                groups = audience;
                updated_at = now;
                updated_by = actor;
              })
                ∷ [];
        })
    remapped :
        (t now : ℕ) (actor id : Text) (given : Option (List (Option Text)))
        (audience : Option (List Text))
        → checked_audience t r given ≡ ok audience
        → Effect r (record r {
          channels = update_rows (channel_named t id) (mapped audience now actor) r.channels;
        })
    unmapped : (p : Channel → Bool) → Effect r (record r { channels = keep p r.channels })
    issued :
        (row : Token)
        → issuable row.id ≡ true
        → Effect r (record r { tokens = r.tokens ++ row ∷ [] })
    retouched :
        (p : Token → Bool) (f : Token → Token)
        → ((k : Token) → Retouched k (f k))
        → Effect r (record r { tokens = update_rows p f r.tokens })
    forgotten : (p : Token → Bool) → Effect r (record r { tokens = keep p r.tokens })
    revisited : (visits : List Visit) → Effect r (record r { visits = visits })

  pub data Effects (r : Roster) : Roster → Type 0 where
    nothing : Effects r r
    and_then : {mid end : Roster} → Effects r mid → Effect mid end → Effects r end

  pub chain : {r mid end : Roster} → Effects r mid → Effects mid end → Effects r end
  chain a nothing = a
  chain a (and_then b e) = and_then (chain a b) e

  pub one : {r end : Roster} → Effect r end → Effects r end
  one e = and_then nothing e
