-- ===== src/Tests.antt =====
-- Examples: the theorems of the other files at concrete inputs.
mod Hex
mod Auth
mod Core
mod Chain
mod Policy
mod State
mod Uri
