-- ===== src/Genpolicy.antt =====
-- signing-service/src/genpolicy.rs: the agent policy of a deployment.
pub mod Value
pub mod Rego
pub mod Normalize
pub mod Environment
pub mod Keys
pub mod Required
pub mod Shape
pub mod Limits
pub mod Manifest
pub mod Settings
pub mod Stripped
pub mod Run
pub mod Ran
