-- ===== src/Kernel/Layers.antt =====
-- src/stigmergy/kernel/layers.py: layer names, the audience that a layer denotes, and the mapping of
-- virtual paths to repository paths. A path is the list of its characters.
pub mod Body
pub mod Combine
pub mod RoundTrip
use stigmergy.Prelude.{
  ℕ, zero, suc, ◌≡◌, refl, Bool, true, false, ◌&&◌, ◌||◌, not, Option, none, some, List, [], ◌∷◌,
  ◌++◌, leb, ◌==◌, if◌then◌else◌, length, all, Text, codes, text_eq, elem, after_prefix, is_empty,
}

pub data Result {ℓ} (A : Type ℓ) : Type ℓ where
  ok : A → Result A
  layer_error : Result A

abbrev pub public : Text
public = codes "public"

abbrev pub layer_root : Text
layer_root = codes "layers"

abbrev pub reserved_names : List Text
reserved_names =
    public ∷ codes "brain-admins" ∷ layer_root ∷ codes "wiki" ∷ codes "sources" ∷ codes "all" ∷ []

abbrev is_lower : ℕ → Bool
is_lower c = leb b'a' c && leb c b'z'

abbrev pub is_name_char : ℕ → Bool
is_name_char c = is_lower c || (leb b'0' c && leb c b'9') || c == b'-'

-- _NAME_RE: ^[a-z][a-z0-9-]{1,31}$
unfoldable pub matches_name : Text → Bool
matches_name [] = false
matches_name (c ∷ cs) =
    is_lower c && (all is_name_char cs && (leb 1 (length cs) && leb (length cs) 31))

unfoldable pub is_layer_name : Text → Bool
unfolding matches_name
is_layer_name name = matches_name name && not (elem name reserved_names)

unfoldable pub layer_of_acl : Option (List Text) → Result Text
layer_of_acl none = ok public
layer_of_acl (some (a ∷ [])) = if is_layer_name a then ok a else layer_error
layer_of_acl (some _) = layer_error

unfoldable pub acl_of_layer : Text → Result (Option (List Text))
acl_of_layer layer =
    if text_eq layer public
    then ok none
    else if is_layer_name layer
    then ok (some (layer ∷ []))
    else layer_error

-- f"{LAYER_ROOT}/"
abbrev pub layers_folder : Text
layers_folder = codes "layers/"

unfoldable pub physical_path : Text → Text → Result Text
physical_path layer virtual =
    if text_eq layer public
    then ok virtual
    else if is_layer_name layer
    then ok (layers_folder ++ (layer ++ (b'/' ∷ virtual)))
    else layer_error

-- the part before the first slash and the part after it
unfoldable pub at_slash : Text → Option (Text × Text)
at_slash [] = none
at_slash (c ∷ cs) =
    let rest = at_slash cs in
    if c == b'/' then some ([], cs) else elim rest [ none ↦ none | some (a, b) ↦ some (c ∷ a, b) ]

abbrev pub checked_parts : Option (Text × Text) → Result (Text × Text)
checked_parts none = layer_error
checked_parts (some (name, rest)) =
    if is_layer_name name && not (is_empty rest) then ok (name, rest) else layer_error

-- `path.split("/", 2)` of a path below the folder, its first part being the folder
unfoldable pub split_path : Text → Result (Text × Text)
unfolding at_slash
split_path path = elim (after_prefix layers_folder path) [
  | none ↦ ok (public, path)
  | some rest ↦ checked_parts (at_slash rest)
]

unfoldable pub virtual_path : Text → Result Text
unfolding split_path
virtual_path path = elim (split_path path) [ ok parts ↦ ok parts.1 | layer_error ↦ layer_error ]
