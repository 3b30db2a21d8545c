-- ===== src/Objects.antt =====
-- kubespawner/objects.py.
pub mod Env
pub mod EnvOrder
pub mod EnvLoop
pub mod Ingress
pub mod Hosts
pub mod Reuse
pub mod Security
pub mod Manifests
pub mod Pod
pub mod MakePod
mod Tests
