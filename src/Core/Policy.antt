-- ===== src/Core/Policy.antt =====
-- tinycloud-core/src/policy_capability: the capabilities of a policy, and when one contains another.
pub mod Registry
pub mod Actions
pub mod Codes
pub mod Rejects
pub mod SqlText
pub mod SqlCaveat
pub mod Paths
pub mod Capability
