-- ===== src/Kernel.antt =====
-- The kernel's policies: tenancy, access labels and layers.
pub mod Tenancy
pub mod Acl
pub mod Layers
