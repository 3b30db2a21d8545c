-- ===== src/Utils.antt =====
-- kubespawner/utils.py.
pub mod Slug
pub mod Update
pub mod Raises
pub mod Hosts
pub mod Model
pub mod Format
mod Tests
