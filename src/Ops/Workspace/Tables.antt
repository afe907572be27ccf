-- ===== src/Ops/Workspace/Tables.antt =====
-- src/stigmergy/ops/erase_workspace.py: `_tenant_tables`, the order in which the tables are emptied.
use stigmergy.Prelude.{
  ℕ, zero, suc, String, Bool, true, false, ◌&&◌, ◌||◌, not, List, [], ◌∷◌, ◌++◌, ltb, ◌==◌, str_eq,
  if◌then◌else◌, any, keep, sort_by, codes, Text, is_empty, length,
}
use stigmergy.Ops.Workspace.State.{raised, Result, ok, err}

-- the order of Python's strings
abbrev pub text_before : Text → Text → Bool
text_before s [] = false
text_before [] (b ∷ t) = true
text_before (a ∷ s) (b ∷ t) = ltb a b || ((a == b) && text_before s t)

abbrev pub name_before : String → String → Bool
name_before a b = text_before (codes a) (codes b)

-- `parent in parents[child]`, for two tables under the policy
abbrev pub references : List (String × String) → String → String → Bool
references keys child parent =
    not (str_eq child parent) && any (λ k. str_eq k.0 child && str_eq k.1 parent) keys

abbrev pub has_name : List String → String → Bool
has_name names t = any (λ n. str_eq n t) names

-- the tables left that no table left references
unfoldable pub leaves : List (String × String) → List String → List String
leaves keys left = sort_by name_before (keep (λ t. not (any (λ c. references keys c t) left)) left)

-- The loop, on at most as many turns as there are tables.
unfoldable pub order : ℕ → List (String × String) → List String → Result (List String)
unfolding leaves
order zero keys left = ok []
order (suc fuel) keys [] = ok []
order (suc fuel) keys (t ∷ ts) =
    let ready = leaves keys (t ∷ ts) in
    let rest = order fuel keys (keep (λ n. not (has_name ready n)) (t ∷ ts)) in
    if is_empty ready
    then err
        (raised (codes "RuntimeError") (codes "the tenant tables reference each other in a cycle"))
    else elim rest [ ok ordered ↦ ok (ready ++ ordered) | err e ↦ err e ]

-- `_tenant_tables`
unfoldable pub tenant_tables : List (String × String) → List String → Result (List String)
unfolding order
tenant_tables keys tables = order (length tables) keys tables
