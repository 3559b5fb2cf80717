-- ===== src/Core/Policy/Rejects.antt =====
-- The codes for rejected SQL invocations of tinycloud-core/src/policy_capability/sql_caveat.rs.
use tinycloud_node.Common.Classes.{Str, codes}

pub data InvocationReject : Type 0 where
  sql_statement_not_allowed : InvocationReject
  sql_fixed_param_override : InvocationReject
  sql_fixed_param_mismatch : InvocationReject
  sql_raw_query_blocked : InvocationReject
  sql_raw_execute_blocked : InvocationReject
  sql_batch_blocked : InvocationReject
  sql_export_blocked : InvocationReject
  sql_non_read_blocked : InvocationReject
  sql_write_blocked : InvocationReject
  sql_escape_blocked : InvocationReject
  sql_non_primitive_bind : InvocationReject
  sql_multistatement_blocked : InvocationReject

unfoldable pub as_str : InvocationReject → Str
as_str sql_statement_not_allowed = codes "sql-statement-not-allowed"
as_str sql_fixed_param_override = codes "sql-fixed-param-override"
as_str sql_fixed_param_mismatch = codes "sql-fixed-param-mismatch"
as_str sql_raw_query_blocked = codes "sql-raw-query-blocked"
as_str sql_raw_execute_blocked = codes "sql-raw-execute-blocked"
as_str sql_batch_blocked = codes "sql-batch-blocked"
as_str sql_export_blocked = codes "sql-export-blocked"
as_str sql_non_read_blocked = codes "sql-non-read-blocked"
as_str sql_write_blocked = codes "sql-write-blocked"
as_str sql_escape_blocked = codes "sql-escape-blocked"
as_str sql_non_primitive_bind = codes "sql-non-primitive-bind"
as_str sql_multistatement_blocked = codes "sql-multistatement-blocked"
