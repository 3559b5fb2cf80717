-- ===== src/Core/PolicyAuthority.antt =====
-- tinycloud-core/src/policy_authority/mod.rs: the kernel of policy enforcement, with its store in
-- memory.
pub mod Errors
pub mod Platform
pub mod Artifacts
pub mod Capabilities
pub mod Shape
pub mod Records
pub mod Pair
pub mod Root
pub mod Descendant
pub mod Store
pub mod Live
pub mod Kernel
pub mod Revoked
