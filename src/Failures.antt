-- ===== src/Failures.antt =====
-- The failure taxonomy of agent/orchestration/failures.py: step errors, their codes and dispositions.
-- `str.casefold` and `json.loads` are parameters: what is proved holds for whatever they return.
pub mod Safety
pub mod Faults
mod Tests
use aws_foundations.Base.{
  ℕ, ◌+◌, ◌==◌, Bool, true, false, not, ◌&&◌, ◌||◌, List, [], ◌∷◌, Option, none, some, String, ltb,
  leb, length, any, all, one_of, codes, str_eq, if◌then◌else◌,
}
use aws_foundations.Base.Json.{Value, str, obj, Fields, end, get}
use aws_foundations.Contracts.{is_alnum}
use aws_foundations.Iam.Evidence.{starts_with}

abbrev between : ℕ → ℕ → ℕ → Bool
between lo hi c = leb lo c && leb c hi

-- `CODE.fullmatch`
unfoldable pub is_code_text : List ℕ → Bool
is_code_text [] = false
is_code_text (c ∷ t) =
    between b'a' b'z' c
    && all (λ d. between b'a' b'z' d || between b'0' b'9' d || d == b'_') t
    && leb (length t) 47

unfoldable pub is_code : String → Bool
is_code s = is_code_text (codes s)

-- `ERROR_NAME.fullmatch`
unfoldable pub is_error_name_text : List ℕ → Bool
is_error_name_text [] = false
is_error_name_text (c ∷ t) =
    (between b'A' b'Z' c || between b'a' b'z' c)
    && all (λ d. is_alnum d || d == b'_' || d == b'.') t
    && leb (length t) 63

unfoldable pub is_error_name : String → Bool
is_error_name s = is_error_name_text (codes s)

-- `safe_code`, of a text
unfoldable pub safe_code : String → String → String
safe_code value default = if is_code value then value else default

-- The classes of step errors.
pub data ErrorKind : Type 0 where
  transient_step_error detector_timeout detector_defect pipeline_defect : ErrorKind
  unexpected_step_error tool_unavailable scan_rejected : ErrorKind

pub data Disposition : Type 0 where
  retry review operator reject : Disposition

-- the class attribute `disposition`
unfoldable pub disposition_of : ErrorKind → Disposition
disposition_of transient_step_error = retry
disposition_of detector_timeout = retry
disposition_of detector_defect = review
disposition_of pipeline_defect = review
disposition_of unexpected_step_error = review
disposition_of tool_unavailable = operator
disposition_of scan_rejected = reject

-- `cls.__name__`
unfoldable pub class_name : ErrorKind → String
class_name transient_step_error = "TransientStepError"
class_name detector_timeout = "DetectorTimeout"
class_name detector_defect = "DetectorDefect"
class_name pipeline_defect = "PipelineDefect"
class_name unexpected_step_error = "UnexpectedStepError"
class_name tool_unavailable = "ToolUnavailable"
class_name scan_rejected = "ScanRejected"

pub record StepError : Type 0 where
  pub kind : ErrorKind
  pub code : String

-- `StepError.__init__`
unfoldable pub step_error : ErrorKind → String → StepError
step_error kind code = record { kind = kind; code = safe_code code "unclassified" }

-- `DETECTOR_FAILURES`
abbrev detector_failures : List (String × ErrorKind)
detector_failures =
    ("timeout", detector_timeout)
    ∷ ("io_error", transient_step_error)
    ∷ ("tool_unavailable", tool_unavailable)
    ∷ ("tool_failed", detector_defect)
    ∷ ("malformed_output", detector_defect)
    ∷ ("missing_report", detector_defect)
    ∷ ("unmapped_rule", detector_defect)
    ∷ ("unrecognized_output", detector_defect)
    ∷ ("crashed", detector_defect)
    ∷ []

unfoldable pub kind_or : String → List (String × ErrorKind) → ErrorKind → ErrorKind
kind_or code [] default = default
kind_or code ((k, kind) ∷ ks) default = if str_eq k code then kind else kind_or code ks default

unfoldable pub detector_failure : String → StepError
detector_failure code = step_error (kind_or code detector_failures detector_defect) code

-- `fragment in message`
unfoldable pub contains : List ℕ → List ℕ → Bool
contains fragment [] = starts_with fragment []
contains fragment (c ∷ t) = starts_with fragment (c ∷ t) || contains fragment t

-- a row of `REJECTIONS`
pub record Rejection : Type 0 where
  pub fragment : String
  pub kind : ErrorKind
  pub code : String

abbrev row : String → ErrorKind → String → Rejection
row fragment kind code = record { fragment = fragment; kind = kind; code = code }

unfoldable pub rejections : List Rejection
rejections =
    row "source changed during preflight" transient_step_error "source_changed"
    ∷ row "unable to read" transient_step_error "source_unreadable"
    ∷ row "git host could not be resolved" transient_step_error "repository_unreachable"
    ∷ row "git clone failed" transient_step_error "repository_unavailable"
    ∷ row "git is unavailable" tool_unavailable "git_unavailable"
    ∷ row "git clone exceeded the size limit" scan_rejected "size_limit_exceeded"
    ∷ row "git clone timed out" scan_rejected "repository_clone_timeout"
    ∷ row "git clone produced no readable revision" scan_rejected "repository_invalid"
    ∷ row "non-public address" scan_rejected "repository_address_rejected"
    ∷ row "git url" scan_rejected "repository_url_rejected"
    ∷ row "maximum file count" scan_rejected "file_count_exceeded"
    ∷ row "entry count" scan_rejected "file_count_exceeded"
    ∷ row "individual file size" scan_rejected "file_size_exceeded"
    ∷ row "total size" scan_rejected "size_limit_exceeded"
    ∷ row "directory depth" scan_rejected "depth_limit_exceeded"
    ∷ row "linked files" scan_rejected "links_not_supported"
    ∷ row "special files" scan_rejected "special_files_not_supported"
    ∷ row "timed out" scan_rejected "preflight_timeout"
    ∷ row "compression ratio" scan_rejected "archive_rejected"
    ∷ row "archive" scan_rejected "archive_rejected"
    ∷ row "zip" scan_rejected "archive_rejected"
    ∷ row "must be a directory" scan_rejected "invalid_source"
    ∷ []

unfoldable pub first_rejection : List Rejection → List ℕ → StepError
first_rejection [] message = step_error scan_rejected "invalid_source"
first_rejection (r ∷ rs) message =
    if contains (codes r.fragment) message
    then step_error r.kind r.code
    else first_rejection rs message

-- `ingestion_failure`, of the error's message
unfoldable pub ingestion_failure : (List ℕ → List ℕ) → String → StepError
ingestion_failure casefold message = first_rejection rejections (casefold (codes message))

-- `name in RETRY_EXHAUSTED`
unfoldable pub is_retry_exhausted : String → Bool
is_retry_exhausted name = one_of name (
    "TransientStepError" ∷ "DetectorTimeout" ∷ "States.Timeout" ∷ "States.HeartbeatTimeout"
    ∷ "Sandbox.Timedout" ∷ "Lambda.ServiceException" ∷ "Lambda.AWSLambdaException"
    ∷ "Lambda.SdkClientException" ∷ "Lambda.TooManyRequestsException" ∷ [])

-- `name in OPERATOR`
unfoldable pub is_operator : String → Bool
is_operator name = one_of name ("ToolUnavailable" ∷ "States.Permissions" ∷ [])

unfoldable pub disposition : String → String
disposition name =
    if is_retry_exhausted name
    then "retry_exhausted"
    else if is_operator name
    then "operator_action"
    else "human_review"

-- `name in STEP_ERRORS`
unfoldable pub is_step_error : String → Bool
is_step_error name = one_of name (
    "TransientStepError" ∷ "DetectorTimeout" ∷ "DetectorDefect" ∷ "PipelineDefect"
    ∷ "UnexpectedStepError" ∷ "ToolUnavailable" ∷ "ScanRejected" ∷ [])

unfoldable pub error_name : Option Value → String
error_name (some (str s)) = if is_error_name s then s else "UnknownError"
error_name _ = "UnknownError"

-- the code that a cause carries: of the object that it parses to, or, if it is not JSON, itself
unfoldable pub cause_code : Option Value → String → Option Value
cause_code none cause = some (str cause)
cause_code (some (obj parsed)) cause = get "errorMessage" parsed
cause_code (some _) cause = none

unfoldable pub carried_code : (String → Option Value) → String → Option Value → Option Value
carried_code parse name (some (str cause)) =
    if is_step_error name then cause_code (parse cause) cause else none
carried_code parse name _ = none

unfoldable pub default_code : String → String
default_code name =
    if one_of name ("States.Timeout" ∷ "Sandbox.Timedout" ∷ "DetectorTimeout" ∷ [])
    then "timeout"
    else if is_retry_exhausted name
    then "transient_failure"
    else if is_operator name
    then "configuration_error"
    else "unexpected_error"

unfoldable pub final_code : String → Option Value → String
final_code name (some (str code)) = if is_code code then code else default_code name
final_code name _ = default_code name

unfoldable pub reason_of_fields : (String → Option Value) → Fields → String × String
reason_of_fields parse error =
    let name = error_name (get "Error" error) in
    (name, final_code name (carried_code parse name (get "Cause" error)))

-- `reason_from_error`; what is no dictionary counts as an empty one
unfoldable pub reason_from_error : (String → Option Value) → Option Value → String × String
reason_from_error parse (some (obj error)) = reason_of_fields parse error
reason_from_error parse _ = reason_of_fields parse end
