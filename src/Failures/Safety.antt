-- ===== src/Failures/Safety.antt =====
-- Only reason codes leave a failed step, and each class of error is handed on as its kind says.
use aws_foundations.Base.{
  ℕ, ◌≡◌, refl, true, false, List, [], ◌∷◌, Option, none, some, String, one_of, codes, all, arith,
  Bool-cases, inl, inr, All, ◌⊎◌, if_property,
}
use aws_foundations.Base.Json.{Value, str, obj, Fields, end, get}
use aws_foundations.Failures.{
  is_code_text, is_code, is_error_name_text, is_error_name, safe_code, ErrorKind,
  transient_step_error, tool_unavailable, scan_rejected, Disposition, retry, review, operator,
  reject, disposition_of, class_name, StepError, step_error, Rejection, rejections, first_rejection,
  contains, ingestion_failure, is_retry_exhausted, is_operator, disposition, is_step_error,
  error_name, carried_code, default_code, final_code, reason_of_fields, reason_from_error,
}
use aws_foundations.Contracts.{is_alnum}

-- The code of a step error is a reason code, whatever text it was made from.
step_error-is_code : (kind : ErrorKind) (text : String) → is_code (step_error kind text).code ≡ true
unfolding step_error safe_code
step_error-is_code kind text = elim (Bool-cases (is_code text)) [
  | inl good ↦ rw good good
  | inr bad ↦ rw bad (unfold is_code is_code_text codes all in refl)
]

-- What ingestion may raise: something to retry, something for the operator, or a rejection.
abbrev pub IsIngestionKind : ErrorKind → Type 0
IsIngestionKind kind =
    (kind ≡ transient_step_error) ⊎ ((kind ≡ tool_unavailable) ⊎ (kind ≡ scan_rejected))

first_rejection-kind :
    (rs : List Rejection) (message : List ℕ)
    → All (λ r. IsIngestionKind r.kind) rs
    → IsIngestionKind (first_rejection rs message).kind
unfolding first_rejection step_error
first_rejection-kind [] message h = inr (inr refl)
first_rejection-kind (r ∷ rs) message (k, ks) = ground (arith, first_rejection-kind rs message ks)

-- The reason codes for an error that brings none of its own.
abbrev pub IsDefaultCode : String → Type 0
IsDefaultCode code =
    one_of code ("timeout" ∷ "transient_failure" ∷ "configuration_error" ∷ "unexpected_error" ∷ [])
    ≡ true

default_code_either :
    (P : String → Type 0) (name : String)
    → P "timeout"
    → P "transient_failure"
    → P "configuration_error"
    → P "unexpected_error"
    → P (default_code name)
unfolding default_code
default_code_either P name t r c u =
    if_property P (one_of name ("States.Timeout" ∷ "Sandbox.Timedout" ∷ "DetectorTimeout" ∷ [])) t
      (if_property P (is_retry_exhausted name) r (if_property P (is_operator name) c u))

default_code-IsDefaultCode : (name : String) → IsDefaultCode (default_code name)
unfolding one_of
default_code-IsDefaultCode name = default_code_either IsDefaultCode name refl refl refl refl

default_code-is_code : (name : String) → is_code (default_code name) ≡ true
unfolding is_code is_code_text codes all
default_code-is_code name = default_code_either (λ s. is_code s ≡ true) name refl refl refl refl

final_code-is_code : (name : String) (v : Option Value) → is_code (final_code name v) ≡ true
unfolding final_code
final_code-is_code name (some (str code)) = elim (Bool-cases (is_code code)) [
  | inl good ↦ rw good good
  | inr bad ↦ rw bad (default_code-is_code name)
]
final_code-is_code name (some _) = default_code-is_code name
final_code-is_code name none = default_code-is_code name

error_name-is_error_name : (v : Option Value) → is_error_name (error_name v) ≡ true
unfolding error_name
error_name-is_error_name (some (str s)) = elim (Bool-cases (is_error_name s)) [
  | inl good ↦ rw good good
  | inr bad ↦ rw bad (unfold is_error_name is_error_name_text is_alnum codes all in refl)
]
error_name-is_error_name (some _) =
    unfold is_error_name is_error_name_text is_alnum codes all in refl
error_name-is_error_name none = unfold is_error_name is_error_name_text is_alnum codes all in refl

-- A name of ours is not on record: the cause is not looked at.
carried_code-foreign :
    (parse : String → Option Value) (name : String) (v : Option Value)
    → is_step_error name ≡ false
    → carried_code parse name v ≡ none
unfolding carried_code
carried_code-foreign parse name (some (str cause)) h = rw h
carried_code-foreign parse name (some _) h = refl
carried_code-foreign parse name none h = refl

-- What `reason_from_error` gives is a name and a code of the two fixed alphabets.
pub record IsSafeReason (r : String × String) : Type 0 where
  pub name : is_error_name r.0 ≡ true
  pub code : is_code r.1 ≡ true
  pub foreign : is_step_error r.0 ≡ false → IsDefaultCode r.1

reason_of_fields-IsSafeReason :
    (parse : String → Option Value) (error : Fields) → IsSafeReason (reason_of_fields parse error)
unfolding reason_of_fields
reason_of_fields-IsSafeReason parse error = record {
  name = error_name-is_error_name (get "Error" error);
  code =
      final_code-is_code _
        (carried_code parse (error_name (get "Error" error)) (get "Cause" error));
  foreign = λ h.
      rw (carried_code-foreign parse (error_name (get "Error" error)) (get "Cause" error) h)
        (unfold final_code in default_code-IsDefaultCode (error_name (get "Error" error)));
}

-- Whatever the error output of a step holds, and however its cause parses, what is passed on is an
-- error name and a reason code of bounded length and plain alphabet; an error that is not one of the
-- pipeline's own classes gets one of four fixed codes, so none of its text is copied.
pub reason_from_error-IsSafeReason :
    (parse : String → Option Value) (error : Option Value)
    → IsSafeReason (reason_from_error parse error)
unfolding reason_from_error
reason_from_error-IsSafeReason parse (some (obj error)) = reason_of_fields-IsSafeReason parse error
reason_from_error-IsSafeReason parse (some _) = reason_of_fields-IsSafeReason parse end
reason_from_error-IsSafeReason parse none = reason_of_fields-IsSafeReason parse end

first_rejection-is_code :
    (rs : List Rejection) (message : List ℕ) → is_code (first_rejection rs message).code ≡ true
unfolding first_rejection
first_rejection-is_code [] message = step_error-is_code scan_rejected "invalid_source"
first_rejection-is_code (r ∷ rs) message =
    if_property (λ (e : StepError). is_code e.code ≡ true) (contains (codes r.fragment) message)
      (step_error-is_code r.kind r.code) (first_rejection-is_code rs message)

rejections-kinds : All (λ r. IsIngestionKind r.kind) rejections
unfolding rejections
rejections-kinds = (
  (inl refl),
  (
    (inl refl),
    (
      (inl refl),
      (
        (inl refl),
        (
          (inr (inl refl)),
          (
            (inr (inr refl)),
            (
              (inr (inr refl)),
              (
                (inr (inr refl)),
                (
                  (inr (inr refl)),
                  (
                    (inr (inr refl)),
                    (
                      (inr (inr refl)),
                      (
                        (inr (inr refl)),
                        (
                          (inr (inr refl)),
                          (
                            (inr (inr refl)),
                            (
                              (inr (inr refl)),
                              (
                                (inr (inr refl)),
                                (
                                  (inr (inr refl)),
                                  (
                                    (inr (inr refl)),
                                    (
                                      (inr (inr refl)),
                                      (
                                        (inr (inr refl)),
                                        ((inr (inr refl)), ((inr (inr refl)), tt)),
                                      ),
                                    ),
                                  ),
                                ),
                              ),
                            ),
                          ),
                        ),
                      ),
                    ),
                  ),
                ),
              ),
            ),
          ),
        ),
      ),
    ),
  ),
)

-- Whatever message ingestion fails with, the step error carries a reason code in place of it, and is
-- one to retry, one for the operator, or a rejection of the scan.
pub ingestion_failure_safe :
    (casefold : List ℕ → List ℕ) (message : String)
    → (is_code (ingestion_failure casefold message).code ≡ true)
      × IsIngestionKind (ingestion_failure casefold message).kind
unfolding ingestion_failure
ingestion_failure_safe casefold message = (
  first_rejection-is_code rejections (casefold (codes message)),
  first_rejection-kind rejections (casefold (codes message)) rejections-kinds,
)

-- How a dead-lettered error of a disposition is handled.
abbrev pub handled_as : Disposition → String
handled_as retry = "retry_exhausted"
handled_as operator = "operator_action"
handled_as review = "human_review"
handled_as reject = "human_review"

-- The disposition that a class of step error declares agrees with the one that is looked up under
-- its name: what is retried ends as exhausted, configuration goes to the operator, and all else to a
-- person.
pub disposition-class_name :
    (kind : ErrorKind) → disposition (class_name kind) ≡ handled_as (disposition_of kind)
unfolding disposition class_name disposition_of is_retry_exhausted is_operator one_of
disposition-class_name transient_step_error = refl
disposition-class_name _ = refl
