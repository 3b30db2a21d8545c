-- ===== src/Spawner.antt =====
-- kubespawner/spawner.py, class `KubeSpawner`: the object's state, the calls of the Kubernetes API
-- and the actions that are built from them.
pub mod Defs
pub mod State
pub mod Events
pub mod Sorted
pub mod Requests
pub mod Url
pub mod Stop
pub mod Waits
pub mod Labels
pub mod Progress
pub mod Watched
pub mod Manifests
mod Tests
pub mod Start
