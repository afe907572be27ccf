-- ===== src/Server/Identity.antt =====
-- src/stigmergy/server/identity.py: the layers in which a principal may file, and the one that a
-- capture files in.
pub mod Filing
use stigmergy.Prelude.{
  Bool, true, false, not, Option, none, some, List, [], ◌∷◌, if◌then◌else◌, keep, Text, text_eq,
  elem,
}
use stigmergy.Kernel.Layers.{Result, public, acl_of_layer}
use stigmergy.Server.Roster.{Principal, brain_admins}
use stigmergy.Server.Roster.Names.{check_group_names}

-- the `audience` of a submission; a value in the list that is no string is `none`
pub data Requested : Type 0 where
  omitted a_string : Requested
  listed : List (Option Text) → Requested

-- the stored audience, LayerRefused, IdentityError or LayerError
pub data Filed : Type 0 where
  filed : Option (List Text) → Filed
  no_default_layer not_a_list not_one not_your_layer : Filed
  invalid_names bad_layer : Filed

unfoldable pub publishable_layers : Principal → List Text
publishable_layers who = public ∷ keep (λ g. not (text_eq g brain_admins)) who.groups

abbrev pub first : Option (List Text) → Option Text
first none = none
first (some []) = none
first (some (a ∷ rest)) = some a

unfoldable pub default_layer : Principal → Option Text
default_layer who = first who.default_audience

abbrev pub stored_as : Result (Option (List Text)) → Filed
stored_as (Result.ok acl) = filed acl
stored_as Result.layer_error = bad_layer

unfoldable pub file_in : Principal → Text → Filed
unfolding publishable_layers acl_of_layer
file_in who layer =
    if not (elem layer (publishable_layers who))
    then not_your_layer
    else stored_as (acl_of_layer layer)

abbrev pub file_default : Principal → Option Text → Filed
file_default who none = no_default_layer
file_default who (some layer) = file_in who layer

abbrev pub file_named : Principal → Option (List Text) → Filed
file_named who none = invalid_names
file_named who (some (layer ∷ [])) = file_in who layer
file_named who (some names) = not_one

unfoldable pub resolve_capture_layer : Principal → Requested → Filed
unfolding default_layer file_in check_group_names
resolve_capture_layer who omitted = file_default who (default_layer who)
resolve_capture_layer who a_string = not_a_list
resolve_capture_layer who (listed names) = file_named who (check_group_names names)
