-- ===== src/Failures/Tests.antt =====
-- Failures and injected faults at concrete inputs.
use aws_foundations.Base.{
  ℕ, ◌≤◌, ◌≡◌, ◌↔◌, ◌⊎◌, refl, inl, true, List, [], ◌∷◌, none, some, ok, codes, text_eq, all, any,
}
use aws_foundations.Base.Json.{Value, str, obj, field, end}
use aws_foundations.Failures.{
  detector_timeout, disposition, disposition_of, class_name, ingestion_failure, reason_from_error,
  is_code,
}
use aws_foundations.Failures.Safety.{
  IsSafeReason, IsIngestionKind, reason_from_error-IsSafeReason, ingestion_failure_safe,
  disposition-class_name,
}
use aws_foundations.Failures.Faults.{
  Fault, transient, fault_of, before, after_write, parse, parse_spec, parse_kind, known_fault,
  split_at, is_step_name, kind_named, times_named,
}
use aws_foundations.Failures.Faults.Attempts.{
  Passes, transient-Passes, fails_once, parsed_transient_clears,
}

injecting : Unit {0}
unfolding fault_of parse parse_spec parse_kind known_fault split_at is_step_name kind_named
    times_named codes text_eq all any
injecting = tt

abbrev leaky_error : Value
leaky_error =
    obj (field "Error" (str "BotoCoreError") (field "Cause" (str "token AKIA0000 was refused") end))

reason_from_error-IsSafeReason_example :
    IsSafeReason (reason_from_error (λ text. none) (some leaky_error))
reason_from_error-IsSafeReason_example =
    reason_from_error-IsSafeReason (λ text. none) (some leaky_error)

ingestion_failure_safe_example :
    (is_code (ingestion_failure (λ text. text) "archive is encrypted").code ≡ true)
    × IsIngestionKind (ingestion_failure (λ text. text) "archive is encrypted").kind
ingestion_failure_safe_example = ingestion_failure_safe (λ text. text) "archive is encrypted"

disposition-class_name_example : disposition "DetectorTimeout" ≡ "retry_exhausted"
unfolding class_name disposition_of
disposition-class_name_example = disposition-class_name detector_timeout

abbrev scan_fault : Fault
scan_fault = record { step = codes "scan"; kind = transient; times = 2 }

abbrev scan_spec : List (List ℕ)
scan_spec = codes "scan=transient:2" ∷ []

transient-Passes_example : Passes (scan_fault ∷ []) (codes "scan") 1 ↔ (2 ≤ 1)
transient-Passes_example =
    transient-Passes (scan_fault ∷ []) (codes "scan") scan_fault 1 (unfold injecting in refl)
      (inl refl)

fails_once_example :
    (before (scan_fault ∷ []) (codes "scan") 1 ≡ ok tt)
    ⊎ (after_write (scan_fault ∷ []) (codes "scan") 1 ≡ ok tt)
fails_once_example = fails_once (scan_fault ∷ []) (codes "scan") 1

parsed_transient_clears_example :
    (9 ≤ 12 → Passes (scan_fault ∷ []) (codes "scan") 12)
    × ¬ (Passes (scan_fault ∷ []) (codes "scan") 0)
parsed_transient_clears_example =
    parsed_transient_clears (λ text. text) (codes "scan" ∷ []) scan_spec (scan_fault ∷ [])
      (codes "scan") scan_fault 12 (unfold injecting in refl) (unfold injecting in refl) (inl refl)
