-- ===== src/Server/Roster/Groups.antt =====
-- src/stigmergy/server/roster.py: administering groups and Slack channels. The index, the queue and
-- the change ledger that `_refuse_unless_empty` reads are a record of what they hold.
use stigmergy.Prelude.{
  ℕ, Bool, true, false, ◌&&◌, ◌||◌, not, Option, none, some, List, [], ◌∷◌, ◌++◌, ltb, leb, max,
  ◌==◌, if◌then◌else◌, all, any, keep, update_rows, length, Text, strip, one_line, text_eq, elem,
}
use stigmergy.Kernel.Layers.{public, is_layer_name}
use stigmergy.Server.Roster.{
  Group, Person, Channel, Roster, group_name, long_description, unrestricted_group, group_in_use,
  index_behind, holds_knowledge, being_filed, no_channel, one_layer, unrestricted_channel,
  not_mapped, already_exists, does_not_exist, Outcome, ok, refused, unrecognised, brain_admins,
  mine,
}
use stigmergy.Server.Roster.Names.{or_empty, groups_of}

-- index_health's row
pub record Health : Type 0 where
  pub dirty : Bool
  pub repository_head_sha : Text
  pub indexed_commit_sha : Text
  pub last_incremental_at : ℕ
  pub last_full_rebuild_at : ℕ

-- a capture's audience, and whether its status is 'landed' or 'failed'
pub record Filing : Type 0 where
  pub acl : List Text
  pub settled : Bool

-- what the other tables hold for the tenant; a table that is not there is `none`
pub record Elsewhere : Type 0 where
  pub pages : Option (List (List Text))
  pub health : Option (Option Health)
  pub queue : Option (List Filing)
  pub ledger : Option (List ℕ)

abbrev newest_is_indexed : Option (List ℕ) → Health → Bool
newest_is_indexed none h = true
newest_is_indexed (some changes) h =
    not (any (λ at. ltb (max h.last_incremental_at h.last_full_rebuild_at) at) changes)

abbrev row_converged : Option (List ℕ) → Option Health → Bool
row_converged ledger none = false
row_converged ledger (some h) =
    (not h.dirty && text_eq h.repository_head_sha h.indexed_commit_sha)
    && newest_is_indexed ledger h

unfoldable pub converged : Elsewhere → Bool
converged e = elim e.pages [
  | none ↦ false
  | some pages ↦ elim e.health [ none ↦ false | some row ↦ row_converged e.ledger row ]
]

abbrev in_filing : Text → Filing → Bool
in_filing layer f = elem layer f.acl && not f.settled

unfoldable pub refuse_unless_empty : Text → Elsewhere → Outcome Text
unfolding converged
refuse_unless_empty layer e =
    if not (converged e)
    then refused index_behind
    else if any (λ acl. elem layer acl) (or_empty e.pages)
    then refused holds_knowledge
    else if any (in_filing layer) (or_empty e.queue)
    then refused being_filed
    else ok layer

abbrev pub group_named : ℕ → Text → Group → Bool
group_named t name g = mine t g.tenant_id && text_eq g.name name

unfoldable pub create_group : ℕ → ℕ → Text → Text → Text → Roster → Outcome (Text × Text) × Roster
unfolding strip one_line
create_group t now actor name description r =
    let clean = strip name in
    let line = one_line description in
    if not (is_layer_name clean)
    then (refused group_name, r)
    else if ltb 1000 (length line)
    then (refused long_description, r)
    else if any (group_named t clean) r.groups
    then (refused already_exists, r)
    else (
      ok (clean, line),
      record r {
        groups =
            r.groups
            ++ (record {
              tenant_id = t;
              name = clean;
              description = line;
              created_at = now;
              created_by = actor;
            })
              ∷ [];
      },
    )

abbrev pub described : Text → Group → Group
described line g = record g { description = line }

unfoldable pub update_group : ℕ → Text → Text → Roster → Outcome Text × Roster
unfolding one_line
update_group t name description r =
    let line = one_line description in
    if ltb 1000 (length line)
    then (refused long_description, r)
    else if any (group_named t name) r.groups
    then (ok name, record r { groups = update_rows (group_named t name) (described line) r.groups })
    else (refused does_not_exist, r)

-- %s = ANY(groups) OR %s = ANY(coalesce(default_audience, '{}'))
abbrev pub person_uses : ℕ → Text → Person → Bool
person_uses t name p =
    mine t p.tenant_id && (elem name p.groups || elem name (or_empty p.default_audience))

abbrev pub channel_uses : ℕ → Text → Channel → Bool
channel_uses t name c = mine t c.tenant_id && elem name (or_empty c.groups)

-- the DELETE, once the layer is known to be empty
unfoldable pub drop_group : ℕ → Text → Roster → Outcome Text → Outcome Text × Roster
drop_group t name r (refused why) = (refused why, r)
drop_group t name r unrecognised = (unrecognised, r)
drop_group t name r (ok layer) =
    if any (group_named t name) r.groups
    then (ok name, record r { groups = keep (λ g. not (group_named t name g)) r.groups })
    else (refused does_not_exist, r)

unfoldable pub delete_group : ℕ → Text → Elsewhere → Roster → Outcome Text × Roster
unfolding drop_group refuse_unless_empty
delete_group t name e r =
    if text_eq name brain_admins
    then (refused unrestricted_group, r)
    else if any (person_uses t name) r.people || any (channel_uses t name) r.channels
    then (refused group_in_use, r)
    else drop_group t name r (refuse_unless_empty name e)

abbrev is_capital : ℕ → Bool
is_capital c = (leb b'A' c && leb c b'Z') || (leb b'0' c && leb c b'9')

-- _CHANNEL_RE: ^[A-Z0-9]{6,20}$
unfoldable pub is_channel_id : Text → Bool
is_channel_id s = all is_capital s && (leb 6 (length s) && leb (length s) 20)

abbrev pub is_only_public : List (Option Text) → Bool
is_only_public (some g ∷ []) = text_eq g public
is_only_public _ = false

unfoldable pub checked_one : Outcome (List Text) → Outcome (Option (List Text))
checked_one (refused why) = refused why
checked_one unrecognised = unrecognised
checked_one (ok audience) =
    if not (length audience == 1)
    then refused one_layer
    else if elem brain_admins audience
    then refused unrestricted_channel
    else ok (some audience)

-- the audience that is stored: None for the public layer
unfoldable pub checked_audience :
    ℕ → Roster → Option (List (Option Text)) → Outcome (Option (List Text))
unfolding groups_of checked_one
checked_audience t r none = ok none
checked_audience t r (some given) =
    if is_only_public given then ok none else checked_one (groups_of t r given)

abbrev pub channel_named : ℕ → Text → Channel → Bool
channel_named t id c = mine t c.tenant_id && text_eq c.channel_id id

abbrev pub mapped : Option (List Text) → ℕ → Text → Channel → Channel
mapped audience now actor c = record c { groups = audience; updated_at = now; updated_by = actor }

-- INSERT ... ON CONFLICT (tenant_id, channel_id) DO UPDATE
unfoldable pub put_channel :
    ℕ → ℕ → Text → Text → Roster → Outcome (Option (List Text)) → Outcome Text × Roster
put_channel t now actor id r (refused why) = (refused why, r)
put_channel t now actor id r unrecognised = (unrecognised, r)
put_channel t now actor id r (ok audience) =
    let row : Channel = record {
      tenant_id = t;
      channel_id = id;
      groups = audience;
      updated_at = now;
      updated_by = actor;
    } in
    let channels =
      if any (channel_named t id) r.channels
      then update_rows (channel_named t id) (mapped audience now actor) r.channels
      else r.channels ++ row ∷ [] in
    (ok id, record r { channels = channels })

unfoldable pub set_channel :
    (Text → Text)
    → ℕ
    → ℕ
    → Text
    → Text
    → Option (List (Option Text))
    → Roster
    → Outcome Text × Roster
unfolding is_channel_id checked_audience put_channel strip
set_channel upper t now actor channel_id groups r =
    let id = upper (strip channel_id) in
    if not (is_channel_id id)
    then (refused no_channel, r)
    else put_channel t now actor id r (checked_audience t r groups)

unfoldable pub delete_channel : (Text → Text) → ℕ → Text → Roster → Outcome Text × Roster
unfolding strip
delete_channel upper t channel_id r =
    let id = upper (strip channel_id) in
    if any (channel_named t id) r.channels
    then (ok id, record r { channels = keep (λ c. not (channel_named t id c)) r.channels })
    else (refused not_mapped, r)
