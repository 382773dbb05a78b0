-- ===== src/Codegen/Issues.antt =====
-- packages/codegen/src/issue-codes.ts, diagnostics.ts and the CodegenIssue of types.ts. A code of the
-- source such as "path.emptyGeneratedKey" is the constructor path_empty_generated_key.
use effect_opcua.Prelude.{String, Option, none, some, List, Bool, true, false}

pub data Severity : Type 0 where
  info warning error : Severity

pub data IssueCode : Type 0 where
  browse_ambiguous_path browse_failure branch_pruned codec_dynamic_fallback : IssueCode
  codec_unsupported_array_rank config_invalid config_load_failed : IssueCode
  datatype_definition_failure datatype_definition_missing : IssueCode
  datatype_definition_unsupported datatype_union_unsupported enum_empty_name : IssueCode
  enum_member_empty_name enum_member_name_collision enum_name_collision : IssueCode
  file_checked file_mkdir_failed file_ownership_violation file_read_failed : IssueCode
  file_write_failed file_written metadata_read_failed node_multi_path node_omitted : IssueCode
  path_branch_leaf_collision path_empty_generated_key path_generated_key_collision : IssueCode
  path_generated_path_collision path_top_level_export_collision : IssueCode
  root_resolution_failed structure_empty_name structure_field_empty_name : IssueCode
  structure_field_name_collision structure_name_collision : IssueCode
  structure_recursive_field structure_unsupported_field : IssueCode
  variable_not_accessible_skipped : IssueCode

-- issueDefinitions[code].severity
unfoldable pub issue_definition : IssueCode → Severity
issue_definition browse_ambiguous_path = error
issue_definition browse_failure = warning
issue_definition branch_pruned = info
issue_definition codec_dynamic_fallback = warning
issue_definition codec_unsupported_array_rank = warning
issue_definition config_invalid = error
issue_definition config_load_failed = error
issue_definition datatype_definition_failure = warning
issue_definition datatype_definition_missing = warning
issue_definition datatype_definition_unsupported = warning
issue_definition datatype_union_unsupported = warning
issue_definition enum_empty_name = warning
issue_definition enum_member_empty_name = warning
issue_definition enum_member_name_collision = warning
issue_definition enum_name_collision = warning
issue_definition file_checked = info
issue_definition file_mkdir_failed = error
issue_definition file_ownership_violation = error
issue_definition file_read_failed = error
issue_definition file_write_failed = error
issue_definition file_written = info
issue_definition metadata_read_failed = error
issue_definition node_multi_path = warning
issue_definition node_omitted = info
issue_definition path_branch_leaf_collision = error
issue_definition path_empty_generated_key = error
issue_definition path_generated_key_collision = error
issue_definition path_generated_path_collision = error
issue_definition path_top_level_export_collision = error
issue_definition root_resolution_failed = error
issue_definition structure_empty_name = warning
issue_definition structure_field_empty_name = warning
issue_definition structure_field_name_collision = warning
issue_definition structure_name_collision = warning
issue_definition structure_recursive_field = warning
issue_definition structure_unsupported_field = warning
issue_definition variable_not_accessible_skipped = warning

-- The `cause` of an issue, where the compiler gives one.
pub data Cause : Type 0 where
  no_cause : Cause
  candidates : List String → Cause
  key_candidates : String → List String → Cause
  segment : Option String → Cause

pub record Issue : Type 0 where
  pub severity : Severity
  pub code : IssueCode
  pub message : String
  pub node_id : Option String
  pub path : Option (List String)
  pub generated_path : Option (List String)
  pub file : Option String
  pub cause : Cause

-- The second argument of `issue`: the fields that a call may leave out are options.
pub record IssueInput : Type 0 where
  pub severity : Option Severity
  pub message : String
  pub node_id : Option String
  pub path : Option (List String)
  pub generated_path : Option (List String)
  pub cause : Cause

-- An input with a message and nothing else.
abbrev pub said : String → IssueInput
said text = record {
  severity = none;
  message = text;
  node_id = none;
  path = none;
  generated_path = none;
  cause = no_cause;
}

abbrev severity_or : Option Severity → Severity → Severity
severity_or none s = s
severity_or (some s) _ = s

unfoldable pub issue : IssueCode → IssueInput → Issue
issue code input = record {
  severity = severity_or input.severity (issue_definition code);
  code = code;
  message = input.message;
  node_id = input.node_id;
  path = input.path;
  generated_path = input.generated_path;
  file = none;
  cause = input.cause;
}

unfoldable pub error_issue : IssueCode → IssueInput → Issue
unfolding issue
error_issue code input = issue code (record input { severity = some error })

abbrev pub is_error : Severity → Bool
is_error error = true
is_error _ = false
