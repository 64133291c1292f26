-- ===== src/TaskGraph/Parsing.antt =====
-- packages/task-graph/src/validation.ts and the `parse…` functions of task-graph.ts, on values that
-- have the declared type: the tests of prototypes, property descriptors and exact keys, which
-- concern other values, are left out.
use ai_development_os.Prelude.{
  ℕ, String, Bool, ◌&&◌, ◌||◌, Option, none, some, List, [], ok, err, ◌>>=◌, ◌>>◌, guard, reject_if,
  ltb, nat_beq, string_eq, if◌then◌else◌, length, contains, is_nodup, map_result, utf16_length,
  matches, trim, is_alphanumeric, is_lower, is_upper, is_digit, ℤ, pos, negsuc, leb_ℤ,
}
use ai_development_os.TaskGraph.Json.{Json, obj, end, clone_json_object}
use ai_development_os.TaskGraph.Limits.{max_dependencies, max_tasks, max_sequence}
use ai_development_os.TaskGraph.Types.{
  Task, TaskDefinition, TaskFailure, pending, Timestamp, ErrorCode, invalid_argument,
  cyclic_dependency, Checked,
}

abbrev pub is_name_rest : ℕ → Bool
is_name_rest c = nat_beq c b'.' || (nat_beq c b'_' || nat_beq c b'-')

-- `IDENTIFIER_PATTERN`.
unfoldable pub is_identifier : String → Bool
is_identifier =
    matches is_alphanumeric (λ c. is_alphanumeric c || (is_name_rest c || nat_beq c b':')) 127

-- `KIND_PATTERN`.
unfoldable pub is_kind : String → Bool
is_kind = matches is_lower (λ c. is_lower c || (is_digit c || is_name_rest c)) 63

-- `FAILURE_CODE_PATTERN`.
unfoldable pub is_failure_code : String → Bool
is_failure_code =
    matches (λ c. is_upper c || is_digit c) (λ c. is_upper c || (is_digit c || is_name_rest c)) 63

unfoldable pub assert_identifier : ErrorCode → String → Checked String
assert_identifier code value = if is_identifier value then ok value else err code

unfoldable pub assert_kind : ErrorCode → String → Checked String
assert_kind code value = if is_kind value then ok value else err code

unfoldable pub normalize_required_text : ErrorCode → ℕ → String → Checked String
normalize_required_text code maximum value =
    let normalized = trim value in
    if nat_beq (utf16_length normalized) 0 || ltb maximum (utf16_length normalized)
    then err code
    else ok normalized

unfoldable pub normalize_optional_text : ErrorCode → ℕ → Option String → Checked (Option String)
normalize_optional_text code maximum none = ok none
normalize_optional_text code maximum (some value) =
    let normalized = trim value in
    if nat_beq (utf16_length normalized) 0
    then ok none
    else if ltb maximum (utf16_length normalized)
    then err code
    else ok (some normalized)

unfoldable pub assert_integer : ErrorCode → ℕ → ℕ → ℕ → Checked ℕ
assert_integer code minimum maximum value =
    if ltb max_sequence value || (ltb value minimum || ltb maximum value)
    then err code
    else ok value

-- `assertInteger` between `MIN_PRIORITY` and `MAX_PRIORITY`.
unfoldable pub assert_priority : ErrorCode → ℤ → Checked ℤ
assert_priority code value =
    if leb_ℤ (negsuc 999) value && leb_ℤ value (pos 1000) then ok value else err code

unfoldable pub parse_failure : ErrorCode → TaskFailure → Checked TaskFailure
parse_failure code failure = do
  guard (is_failure_code failure.code) code
  message ← normalize_required_text code 4000 failure.message
  ok (record { code = failure.code; message = message; retryable = failure.retryable })

unfoldable pub parse_unique_identifiers : ErrorCode → ℕ → List String → Checked (List String)
parse_unique_identifiers code maximum items = do
  reject_if (ltb maximum (length items)) code
  ids ← map_result (assert_identifier code) items
  guard (is_nodup ids) code
  ok ids

abbrev pub list_or_nil : Option (List String) → List String
list_or_nil none = []
list_or_nil (some items) = items

abbrev pub priority_or_zero : Option ℤ → Checked ℤ
priority_or_zero none = ok (pos 0)
priority_or_zero (some priority) = assert_priority invalid_argument priority

abbrev pub metadata_or_empty : Option Json → Json
metadata_or_empty none = obj end
metadata_or_empty (some metadata) = metadata

unfoldable pub parse_task_definition : TaskDefinition → ℕ → Timestamp → Checked Task
parse_task_definition d order timestamp = do
  id ← assert_identifier invalid_argument d.id
  dependencies ←
      parse_unique_identifiers invalid_argument max_dependencies (list_or_nil d.dependencies)
  reject_if (contains dependencies id) cyclic_dependency
  kind ← assert_kind invalid_argument d.kind
  title ← normalize_required_text invalid_argument 300 d.title
  description ← normalize_optional_text invalid_argument 10000 d.description
  priority ← priority_or_zero d.priority
  metadata ← clone_json_object invalid_argument (metadata_or_empty d.metadata)
  ok (record {
    id = id;
    kind = kind;
    title = title;
    description = description;
    dependencies = dependencies;
    priority = priority;
    metadata = metadata;
    status = pending;
    blocked_by = [];
    output_artifact_ids = [];
    failure = none;
    order = order;
    created_at = timestamp;
    updated_at = timestamp;
  })

pub record MutationOptions : Type 0 where
  pub expected_version : Option ℕ
  pub reason : Option String

unfoldable pub parse_expected_version : Option ℕ → Checked (Option ℕ)
parse_expected_version none = ok none
parse_expected_version (some v) =
    assert_integer invalid_argument 0 max_sequence v >>= λ version. ok (some version)

unfoldable pub parse_mutation_options : MutationOptions → Checked MutationOptions
parse_mutation_options o = do
  version ← parse_expected_version o.expected_version
  reason ← normalize_optional_text invalid_argument 1000 o.reason
  ok (record { expected_version = version; reason = reason })

unfoldable pub parse_ready_limit : Option ℕ → Checked ℕ
parse_ready_limit none = ok max_tasks
parse_ready_limit (some limit) = assert_integer invalid_argument 0 max_tasks limit
