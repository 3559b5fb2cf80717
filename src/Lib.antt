-- ===== src/Lib.antt =====
-- A verification library for TinyCloud Node, a server that keeps the data of spaces and lets their
-- owners delegate abilities over resources to other principals.
--
-- The program. Two crates decide who may do what. tinycloud-auth names things: actions and the
-- registry of their aliases and implications, DIDs, spaces and resources. tinycloud-core uses these
-- names to decide: a delegation passes capabilities on, citing the delegations that it rests on; an
-- invocation uses capabilities, citing delegations; a revocation ends a delegation and all that
-- rests on it. Stored delegations form a graph by their citations, which is walked for revoked
-- ancestors and for the time window of the whole chain. Policy capabilities are the JSON form of a
-- capability, with its own containment test, and SQL caveats narrow a capability to fixed statements.
--
-- The files.
--   Common: names of the libraries, lists, strings, decimal numbers, sorting, decidable equality.
--   Auth/Registry: tinycloud-auth/src/policy_capability/generated.rs (accepted_actions,
--     resolve_alias, implied_actions).
--   Auth/Ability: tinycloud-auth/src/policy_capability.rs (expand_actions, ability_matches,
--     path_contains). Closure, Fuel, Laws and Paths are about them.
--   Auth/Identity: tinycloud-auth/src/identity.rs (canonicalize_did, did_principal_matches and what
--     they call). Canonical and Laws are about them.
--   Auth/Resource: tinycloud-auth/src/resource.rs (ResourceId::extends, Display, TryFrom<&UriStr>).
--     Extends and Paths are about them.
--   Core/Json: the interface of JSON values.
--   Core/Policy: tinycloud-core/src/policy_capability. Registry is its copy of the generated tables,
--     Actions, Codes, Paths and Capability are mod.rs (parse, PolicyCapability::contains as
--     capability_contains), SqlCaveat, SqlText and Rejects are sql_caveat.rs. Agree,
--     Contains, Fields and Parse are about them.
--   Core/NetworkId: tinycloud-core/src/encryption_network/network_id.rs.
--   Core/Resource: tinycloud-core/src/types/resource.rs.
--   Core/Traversal: the walk of tinycloud-core/src/models/revocation.rs
--     (ancestor_chain_ids_for_roots, first_revoked_ancestor, is_revoked). Step, Fuel, Sound, Complete
--     and Revoked are about it.
--   Core/Authority: what tinycloud-core/src/models/delegation.rs and invocation.rs share: the rows,
--     is_root_authority, extract_sql_caveat and the search for a supporting ability.
--   Core/Delegation, Core/Invocation: validate of the two files. The source has one long function
--     in each; here each loop of it and each block with early returns is a definition. Sound,
--     Complete and Chain are about them.
--   Core/Revocation: control_proof_decision, revoker_is_authorized and process of
--     tinycloud-core/src/models/revocation.rs. Laws is about them.
--   Core/PolicyAuthority: tinycloud-core/src/policy_authority/mod.rs. Errors, Artifacts and Records
--     are its types; Shape is validate_wire_shape and the facts; Capabilities is the sets of
--     capabilities with their hash (which policy_capability/mod.rs computes); Pair, Root with
--     Root/Limits and Root/Audit, and Descendant are validate_authority_pair, validate_root and
--     validate_descendant; Store is MemoryAuthorityStore; Live is ensure_live and the two walks over
--     the edges; Kernel is issue_root and persist_descendant. A long chain of checks is cut into
--     definitions at its blocks. Accepted, Within, Sound, Outcomes, Edges, Checked, Reach,
--     Invariant, Chains, Challenges and Revoked are about them.
--   Core/ShareState: tinycloud-core/src/share_email/state.rs, the durable state of sharing by
--     email. Tables and Quota have the rows of tinycloud-core/src/models, Quota the counting of
--     uses, Invitations the reservation of an invitation, Sessions the sessions, reads and holder
--     bindings with the cleanup. Counted, Bound, Once, Changes, Single and Consumable are about
--     them.
--   Server/InvocationReplay: tinycloud-node-server/src/invocation_replay.rs. Window is about it.
--   Tests: the theorems at concrete inputs.
--
-- The state. The database is a record of four lists of rows (Db), in the order in which queries
-- return them; a function that writes returns the new record. Errors are values of the source's
-- enums in a Result. The store of the policy kernel is a record of association lists; an operation
-- returns its result with the new store, and Reach has the states that sequences of calls lead to.
-- Strings are lists of Unicode scalar values, hashes lists of bytes, times
-- numbers of nanoseconds from the earliest one. The state of sharing by email is a record of tables
-- by primary key, with times from the Unix epoch, and an operation that fails leaves it, since
-- its transaction is dropped. A walk of the policy kernel reads one state of the store; the source
-- locks it for each read, and writes between the reads of a walk are not modelled.
--
-- Parameters, for code of other packages: the checksum spelling of an address (encode_eip55, with
-- IsEip55 for what EIP-55 says of it), the DID syntax test (valid_did), the parts of a URI (Uri),
-- JSON values (Json), Unicode normalisation (nfc), and the text of a CID (cid_text). Platform has
-- those of the policy kernel: JSON with its builders, SHA-256, the reading of timestamps, and the
-- canonical JSON bytes, which the theorems say nothing of. That verified artifacts are stored under
-- the CIDs of their contents is the hypothesis IsVerified of its theorems, for a CID that stands
-- for one artifact (artifact_of). Clock is the writing and reading of RFC 3339 texts. An insertion
-- of sea-orm that gives way to a stored row is its error RecordNotInserted. IsUriParser is what RFC
-- 3986 says of a URI parser. Instants beyond the last one that the source represents are not
-- modelled.
--
-- Bounds and fuel. The expansion of actions runs on six rounds for each action, since no action
-- of the registry implies more than five others, directly or not. The walk
-- stops at sixty-four delegations, so it runs on 65 * 65 + 1 = 4226 rounds. In both cases the
-- theorems on termination show that the fuel is enough. The walks of the policy kernel recurse on the
-- 65 levels that the source allows, and end with its error below them.
--
-- Not modelled: verification of signatures and of the time of a token (ssi, cacao), database
-- failures, the database store and the artifact verifier of the policy kernel and its reader of
-- JSON text, the saving of delegations and invocations, canonical JSON and hashes, epochs and event
-- ordering, encryption networks beyond their ids, the SQL and DuckDB services, storage backends,
-- sharing by email beyond its durable state, the HTTP server beyond its replay cache, and the client
-- bindings.
pub mod Common
pub mod Auth
pub mod Core
pub mod Server
pub mod Tests
