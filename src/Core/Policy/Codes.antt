-- ===== src/Core/Policy/Codes.antt =====
-- The rejection codes of tinycloud-core/src/policy_capability, and their texts.
use tinycloud_node.Common.Classes.{Str, codes}

pub data RejectionCode : Type 0 where
  policy_capability_malformed_service : RejectionCode
  policy_capability_malformed_space : RejectionCode
  policy_capability_malformed_path : RejectionCode
  policy_capability_malformed_action_shortname : RejectionCode
  policy_capability_malformed_action : RejectionCode
  policy_capability_empty_actions : RejectionCode
  policy_capability_malformed_caveats : RejectionCode
  policy_capability_unknown_key : RejectionCode
  policy_capability_malformed : RejectionCode
  containment_service_mismatch : RejectionCode
  containment_space_mismatch : RejectionCode
  containment_path_mismatch : RejectionCode
  containment_action_not_subset : RejectionCode
  containment_caveat_required : RejectionCode
  containment_sql_fixed_param_dropped : RejectionCode
  containment_sql_fixed_param_mismatch : RejectionCode
  containment_sql_statement_added : RejectionCode
  sql_non_readonly_not_permitted : RejectionCode
  sql_write_blocked : RejectionCode

unfoldable pub as_str : RejectionCode → Str
as_str policy_capability_malformed_service = codes "policy-capability-malformed-service"
as_str policy_capability_malformed_space = codes "policy-capability-malformed-space"
as_str policy_capability_malformed_path = codes "policy-capability-malformed-path"
as_str policy_capability_malformed_action_shortname =
    codes "policy-capability-malformed-action-shortname"
as_str policy_capability_malformed_action = codes "policy-capability-malformed-action"
as_str policy_capability_empty_actions = codes "policy-capability-empty-actions"
as_str policy_capability_malformed_caveats = codes "policy-capability-malformed-caveats"
as_str policy_capability_unknown_key = codes "policy-capability-unknown-key"
as_str policy_capability_malformed = codes "policy-capability-malformed"
as_str containment_service_mismatch = codes "containment-service-mismatch"
as_str containment_space_mismatch = codes "containment-space-mismatch"
as_str containment_path_mismatch = codes "containment-path-mismatch"
as_str containment_action_not_subset = codes "containment-action-not-subset"
as_str containment_caveat_required = codes "containment-caveat-required"
as_str containment_sql_fixed_param_dropped = codes "containment-sql-fixed-param-dropped"
as_str containment_sql_fixed_param_mismatch = codes "containment-sql-fixed-param-mismatch"
as_str containment_sql_statement_added = codes "containment-sql-statement-added"
as_str sql_non_readonly_not_permitted = codes "sql-non-readonly-not-permitted"
as_str sql_write_blocked = codes "sql-write-blocked"
