-- ===== src/Genpolicy/Manifest.antt =====
-- The manifest of the pod that the generator reads (genpolicy.rs).
pub mod Parts
pub mod App
pub mod Proxy
pub mod Scripts
pub mod Ingress
pub mod Init
pub mod Volumes
pub mod Pod
pub mod Renders
pub mod Agree
pub mod Declared
