-- ===== src/Auth.antt =====
-- tinycloud-auth: the capability registry, identities and resource identifiers.
pub mod Registry
pub mod Ability
pub mod Identity
pub mod Resource
