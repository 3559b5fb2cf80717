-- ===== src/Auth/Registry.antt =====
-- tinycloud-auth/src/policy_capability/generated.rs: the table of action URNs, generated from
-- capabilities.json. A `match` on a string is a chain of comparisons.
use tinycloud_node.Common.{List, [], ◌∷◌, Option, none, some, if◌then◌else◌}
use tinycloud_node.Common.Classes.{◌==◌, Str, codes, list_eq, List_eq, Nat_eq}

unfoldable pub accepted_actions : Str → Option (List Str)
unfolding list_eq
accepted_actions service =
    if service == codes "tinycloud.capabilities"
    then some (codes "tinycloud.capabilities/read" ∷ [])
    else if service == codes "tinycloud.delegation"
    then some (codes "tinycloud.delegation/list" ∷ codes "tinycloud.delegation/status" ∷ [])
    else if service == codes "tinycloud.duckdb"
    then some (
        codes "tinycloud.duckdb/*"
        ∷ codes "tinycloud.duckdb/admin"
        ∷ codes "tinycloud.duckdb/export"
        ∷ codes "tinycloud.duckdb/import"
        ∷ codes "tinycloud.duckdb/read"
        ∷ codes "tinycloud.duckdb/select"
        ∷ codes "tinycloud.duckdb/write"
        ∷ [])
    else if service == codes "tinycloud.encryption"
    then some (
        codes "tinycloud.encryption/decrypt"
        ∷ codes "tinycloud.encryption/network.create"
        ∷ codes "tinycloud.encryption/network.revoke"
        ∷ [])
    else if service == codes "tinycloud.hooks"
    then some (
        codes "tinycloud.hooks/list"
        ∷ codes "tinycloud.hooks/register"
        ∷ codes "tinycloud.hooks/subscribe"
        ∷ codes "tinycloud.hooks/unregister"
        ∷ [])
    else if service == codes "tinycloud.kv"
    then some (
        codes "tinycloud.kv/del"
        ∷ codes "tinycloud.kv/delete"
        ∷ codes "tinycloud.kv/get"
        ∷ codes "tinycloud.kv/list"
        ∷ codes "tinycloud.kv/metadata"
        ∷ codes "tinycloud.kv/put"
        ∷ [])
    else if service == codes "tinycloud.space"
    then some (
        codes "tinycloud.space/create"
        ∷ codes "tinycloud.space/host"
        ∷ codes "tinycloud.space/info"
        ∷ codes "tinycloud.space/list"
        ∷ [])
    else if service == codes "tinycloud.sql"
    then some (
        codes "tinycloud.sql/*"
        ∷ codes "tinycloud.sql/admin"
        ∷ codes "tinycloud.sql/read"
        ∷ codes "tinycloud.sql/schema"
        ∷ codes "tinycloud.sql/select"
        ∷ codes "tinycloud.sql/write"
        ∷ [])
    else if service == codes "tinycloud.vfs"
    then some (
        codes "tinycloud.vfs/delete"
        ∷ codes "tinycloud.vfs/get"
        ∷ codes "tinycloud.vfs/list"
        ∷ codes "tinycloud.vfs/metadata"
        ∷ codes "tinycloud.vfs/put"
        ∷ [])
    else none

unfoldable pub resolve_alias : Str → Str
unfolding list_eq
resolve_alias action =
    if action == codes "tinycloud.duckdb/select"
    then codes "tinycloud.duckdb/read"
    else if action == codes "tinycloud.kv/delete"
    then codes "tinycloud.kv/del"
    else if action == codes "tinycloud.sql/select"
    then codes "tinycloud.sql/read"
    else action

unfoldable pub implied_actions : Str → List Str
unfolding list_eq
implied_actions action =
    if action == codes "tinycloud.duckdb/*"
    then (codes "tinycloud.duckdb/admin"
        ∷ codes "tinycloud.duckdb/export"
        ∷ codes "tinycloud.duckdb/import"
        ∷ codes "tinycloud.duckdb/read"
        ∷ codes "tinycloud.duckdb/write"
        ∷ [])
    else if action == codes "tinycloud.sql/*"
    then (codes "tinycloud.sql/admin"
        ∷ codes "tinycloud.sql/read"
        ∷ codes "tinycloud.sql/schema"
        ∷ codes "tinycloud.sql/write"
        ∷ [])
    else if action == codes "tinycloud.sql/admin"
    then (codes "tinycloud.sql/schema" ∷ [])
    else []
