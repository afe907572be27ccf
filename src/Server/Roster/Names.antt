-- ===== src/Server/Roster/Names.antt =====
-- What the roster accepts as a subject, as group names, and as the fields of a person
-- (src/stigmergy/server/roster.py and `check_group_names` of src/stigmergy/server/identity.py).
use stigmergy.Prelude.{
  ℕ, ◌+◌, Bool, true, false, ◌&&◌, ◌||◌, not, Option, none, some, List, [], ◌∷◌, ◌++◌, leb, ltb,
  ◌==◌, if◌then◌else◌, length, any, all, map, sort_by, Text, codes, text_eq, elem, is_empty,
  is_space, strip, one_line, split_at,
}
use stigmergy.Kernel.Layers.{public, is_layer_name}
use stigmergy.Server.Roster.{
  Kind, person, agent, Roster, not_an_email, invalid_group, unknown_group, not_a_layer,
  no_display_name, no_kind, admin_not_person, admin_restricted, no_default, foreign_default,
  Outcome, ok, refused, unrecognised, brain_admins, mine,
}

-- a dot with a character behind it
unfoldable pub inner_dot : Text → Bool
inner_dot [] = false
inner_dot (c ∷ cs) = (c == b'.' && not (is_empty cs)) || inner_dot cs

abbrev has_domain : Text → Bool
has_domain [] = false
has_domain (c ∷ cs) = inner_dot cs

abbrev pub email_parts : List Text → Bool
email_parts (local ∷ (domain ∷ [])) = not (is_empty local) && has_domain domain
email_parts _ = false

-- _EMAIL_RE: ^[^@\s]+@[^@\s]+\.[^@\s]+$
unfoldable pub is_email : Text → Bool
unfolding inner_dot split_at is_space
is_email s = all (λ c. not (is_space c)) s && email_parts (split_at b'@' s)

-- `_subject`; None is the empty text
unfoldable pub subject_of : (Text → Text) → Text → Outcome Text
unfolding is_email strip
subject_of lower value =
    let s = lower (strip value) in
    if not (is_email s) || ltb 254 (length s) then refused not_an_email else ok s

-- str.casefold of an ASCII text
abbrev pub fold_char : ℕ → ℕ
fold_char c = if leb b'A' c && leb c b'Z' then c + 32 else c

abbrev pub fold_ascii : Text → Text
fold_ascii s = map fold_char s

abbrev alphanumeric : ℕ → Bool
alphanumeric c =
    (leb b'A' c && leb c b'Z') || ((leb b'a' c && leb c b'z') || (leb b'0' c && leb c b'9'))

-- _GROUP_NAME_RE: ^[A-Za-z0-9][A-Za-z0-9._-]*$
unfoldable pub matches_group : Text → Bool
matches_group [] = false
matches_group (c ∷ cs) =
    alphanumeric c && all (λ d. alphanumeric d || (d == b'.' || (d == b'_' || d == b'-'))) cs

abbrev pub max_group_name_chars : ℕ
max_group_name_chars = 64

abbrev pub max_groups : ℕ
max_groups = 32

-- the two tests on one stripped name; a name that matches the pattern is ASCII, and not "*"
unfoldable pub good_group : Text → Bool
unfolding matches_group
good_group name =
    not (
      ltb max_group_name_chars (length name)
      || (not (matches_group name) || text_eq (fold_ascii name) (codes "all")))
    && not (text_eq (fold_ascii name) brain_admins && not (text_eq name brain_admins))

-- the loop of `check_group_names`; `none` is a value that is no string
unfoldable pub check_names : List Text → List (Option Text) → Option (List Text)
unfolding good_group strip
check_names result [] = some result
check_names result (none ∷ values) = none
check_names result (some value ∷ values) =
    let name = strip value in
    let rest = check_names (result ++ name ∷ []) values in
    if good_group name && not (elem name result) then rest else none

unfoldable pub check_group_names : List (Option Text) → Option (List Text)
unfolding check_names
check_group_names values = if ltb max_groups (length values) then none else check_names [] values

-- Python's order of two texts
abbrev pub text_before : Text → Text → Bool
text_before [] [] = false
text_before [] (d ∷ ds) = true
text_before (c ∷ cs) [] = false
text_before (c ∷ cs) (d ∷ ds) = let rest = text_before cs ds in if c == d then rest else ltb c d

-- whether the tenant has a group of the name
abbrev pub has_group : Roster → ℕ → Text → Bool
has_group r t g = any (λ row. mine t row.tenant_id && text_eq row.name g) r.groups

abbrev pub layer_or_admins : Text → Bool
layer_or_admins g = text_eq g brain_admins || is_layer_name g

unfoldable pub checked_names : ℕ → Roster → Option (List Text) → Outcome (List Text)
checked_names t r none = refused invalid_group
checked_names t r (some names) =
    if not (all (has_group r t) names)
    then refused unknown_group
    else if not (all layer_or_admins names)
    then refused not_a_layer
    else ok (sort_by text_before names)

-- `_groups`
unfoldable pub groups_of : ℕ → Roster → List (Option Text) → Outcome (List Text)
unfolding check_group_names checked_names
groups_of t r values = checked_names t r (check_group_names values)

-- the `data` of a request: a missing field is `none`, and a list may hold values that are no string
pub record Form : Type 0 where
  pub display_name : Option Text
  pub kind : Option Text
  pub is_admin : Option Bool
  pub groups : Option (List (Option Text))
  pub default_audience : Option (List (Option Text))

-- the checked fields
pub record Fields : Type 0 where
  pub display_name : Text
  pub kind : Kind
  pub is_admin : Bool
  pub groups : List Text
  pub default_layer : Text

abbrev pub or_empty {ℓ} : {A : Type ℓ} → Option (List A) → List A
or_empty none = []
or_empty (some xs) = xs

unfoldable pub kind_of : Option Text → Option Kind
kind_of none = some person
kind_of (some k) =
    if is_empty k
    then some person
    else if text_eq k (codes "person")
    then some person
    else if text_eq k (codes "agent")
    then some agent
    else none

abbrev pub is_person : Kind → Bool
is_person person = true
is_person agent = false

abbrev pub truth : Option Bool → Bool
truth none = false
truth (some b) = b

-- the one string of a default audience
abbrev pub only_string : Option (List (Option Text)) → Option Text
only_string (some (some a ∷ [])) = some a
only_string _ = none

-- the last check: `default_layer` is `public` or one of the identity's layers
unfoldable pub checked_default : Text → Kind → Bool → List Text → Option Text → Outcome Fields
unfolding strip
checked_default name kind admin groups none = refused no_default
checked_default name kind admin groups (some given) =
    let layer = strip given in
    if not (text_eq layer public) && (text_eq layer brain_admins || not (elem layer groups))
    then refused foreign_default
    else ok (record {
      display_name = name;
      kind = kind;
      is_admin = admin;
      groups = groups;
      default_layer = layer;
    })

unfoldable pub checked_groups :
    Text → Kind → Bool → Option Text → Outcome (List Text) → Outcome Fields
unfolding checked_default
checked_groups name kind admin given (refused why) = refused why
checked_groups name kind admin given unrecognised = unrecognised
checked_groups name kind admin given (ok groups) =
    if admin && not (elem brain_admins groups)
    then refused admin_restricted
    else checked_default name kind admin groups given

unfoldable pub checked_kind :
    Text → Bool → Option Text → Outcome (List Text) → Option Kind → Outcome Fields
unfolding checked_groups
checked_kind name admin given groups none = refused no_kind
checked_kind name admin given groups (some kind) =
    if admin && not (is_person kind)
    then refused admin_not_person
    else checked_groups name kind admin given groups

-- `_validated`
unfoldable pub validated : ℕ → Roster → Form → Outcome Fields
unfolding kind_of groups_of checked_kind one_line
validated t r form =
    let name = one_line (or_empty form.display_name) in
    if is_empty name || ltb 120 (length name)
    then refused no_display_name
    else checked_kind name (truth form.is_admin) (only_string form.default_audience)
        (groups_of t r (or_empty form.groups)) (kind_of form.kind)
