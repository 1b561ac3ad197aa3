-- ===== src/Registry.antt =====
-- kenaz_ml/modelstore/registry: manifests, their validation and the resolution ladder.
pub mod Json
pub mod Manifest
pub mod Validate
pub mod Directory
pub mod Slots
pub mod Fixtures
mod Scenarios
