-- ===== src/Kernel/Tenancy.antt =====
-- src/stigmergy/kernel/tenancy.py: which tenant a connection acts for, and the rows it sees.
-- The two settings are the state of a connection: `app.tenant_id` and `app.scope`.
pub mod Scope
use stigmergy.Prelude.{ℕ, Bool, true, false, ◌||◌, Option, none, some, ◌==◌, if◌then◌else◌}

pub record Session : Type 0 where
  pub tenant : Option ℕ
  pub platform : Bool

abbrev pub is_tenant : Option ℕ → ℕ → Bool
is_tenant none t = false
is_tenant (some s) t = s == t

-- the row policy VISIBLE, at a row's tenant
abbrev pub visible : Session → ℕ → Bool
visible c t = c.platform || is_tenant c.tenant t

unfoldable pub set_tenant : ℕ → Session → Session
set_tenant t c = record c { tenant = some t }

unfoldable pub clear : Session → Session
clear c = record { tenant = none; platform = false }

-- The block runs with the tenant bound and the scope off, and both are then put back; a scope
-- that was off is left as the block leaves it.
unfoldable pub tenant_scope {ℓ} : {A : Type ℓ} → ℕ → (Session → A × Session) → Session → A × Session
unfolding set_tenant
tenant_scope t block c =
    let entered = record (set_tenant t c) { platform = false } in
    let (a, left) = block entered in
    (a, record { tenant = c.tenant; platform = if c.platform then true else left.platform })

unfoldable pub platform_scope {ℓ} : {A : Type ℓ} → (Session → A × Session) → Session → A × Session
platform_scope block c =
    let (a, left) = block (record c { platform = true }) in
    (a, record left { platform = c.platform })
