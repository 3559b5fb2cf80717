-- ===== src/Core.antt =====
-- tinycloud-core: policy capabilities, resources, and the delegation graph.
pub mod Json
pub mod Policy
pub mod NetworkId
pub mod Resource
pub mod Traversal
pub mod Authority
pub mod Delegation
pub mod Invocation
pub mod Revocation
pub mod PolicyAuthority
pub mod ShareState
