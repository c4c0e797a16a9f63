-- ===== src/Examples.antt =====
-- Concrete runs of the model, and the theorems at concrete inputs.
mod Toy
mod Encoding
mod Keyrings
mod Descriptors
mod Owners
mod Policies
mod Services
mod Mounts
mod Pods
mod Runs
mod Combined
