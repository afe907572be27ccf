-- ===== src/Kernel/Tenancy/Scope.antt =====
-- What a block sees under a scope, and what the connection is left with.
use stigmergy.Prelude.{ℕ, ◌≡◌, ◌==◌, refl, ap, Bool, true, false, some, if◌then◌else◌}
use stigmergy.Kernel.Tenancy.{Session, visible, set_tenant, tenant_scope}

abbrev pub acting_for : ℕ → Session
acting_for t = record { tenant = some t; platform = false }

-- a block that leaves the platform scope as it finds it
abbrev pub KeepsScope {ℓ} : {A : Type ℓ} → (Session → A × Session) → Type 0
KeepsScope block = (s : Session) → (block s).1.platform ≡ s.platform

put_back : (was left : Bool) → left ≡ false → (if was then true else left) ≡ was
put_back true left h = refl
put_back false left h = h

-- A block run for a tenant, from any connection, gives what it gives on a connection of that tenant
-- alone, where a row is visible exactly when it is the tenant's; and if the block leaves the scope as
-- it finds it, the connection acts afterwards as it did before.
pub tenant_scope_lem {ℓ} :
    {A : Type ℓ}
    → (t : ℕ) (block : Session → A × Session) (c : Session) → KeepsScope block
    → ((tenant_scope t block c).0 ≡ (block (acting_for t)).0)
      × ((u : ℕ) → visible (acting_for t) u ≡ (t == u))
      × ((tenant_scope t block c).1 ≡ c)
unfolding tenant_scope set_tenant
tenant_scope_lem t block c keeps = (
  refl,
  λ u. refl,
  ap (λ b. record { tenant = c.tenant; platform = b })
      (put_back c.platform _ (keeps (acting_for t))),
)
