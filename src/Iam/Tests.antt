-- ===== src/Iam/Tests.antt =====
-- The policies of the fixtures, run through the check, and the theorems at them.
use aws_foundations.Base.{
  ◌≡◌, ◌↔◌, refl, List, [], ◌∷◌, String, Any, first, any, all, one_of, codes, has_char, text_eq,
}
use aws_foundations.Base.Json.{Value, str, arr, obj, Fields, field, end, items, to_items, get, keys}
use aws_foundations.Iam.{
  safe, expansion, inconclusive, check_no_expansion, statements, values, texts, check_statement,
  check_statements, statement_list, listed, covered_folded, covered_by, covers_pair, contained,
}
use aws_foundations.Iam.Glob.{
  fnmatchcase, some_suffix, one_char, this_char, no_char, fnmatchcase_iff,
}
use aws_foundations.Iam.Plain.{lower_ascii, plain_reading}
use aws_foundations.Iam.Meaning.{
  Allows, written, texts_of, objects, written_list, written_statements,
}
use aws_foundations.Iam.Containment.{check_no_expansion_sound}
use aws_foundations.Iam.Unchanged.{check_no_expansion_refl}
use aws_foundations.Iam.Evidence.{
  policy_from_evidence, exact_operations, exact_operation, text_operation, inexact, starts_with,
}
use aws_foundations.Iam.Evidence.Grants.{Covers, policy_from_evidence-exact}

abbrev allow : String → String → Value
allow action resource = obj (
    field "Version" (str "2012-10-17") (
      field "Statement"
        (obj (
          field "Effect" (str "Allow")
            (field "Action" (str action) (field "Resource" (str resource) end))))
        end))

-- What a run of the check computes with.
running : Unit {0}
unfolding check_no_expansion statements check_statements check_statement statement_list values texts
    listed contained covers_pair covered_by covered_folded fnmatchcase some_suffix one_char
    this_char no_char text_eq has_char any all one_of codes items get keys written texts_of objects
    written_list written_statements policy_from_evidence exact_operations exact_operation
    text_operation inexact starts_with to_items
running = tt

narrowed :
    (check_no_expansion lower_ascii (allow "s3:*" "*") (allow "S3:GetObject" "*")).status ≡ safe
unfolding running
narrowed = refl

widened :
    (check_no_expansion lower_ascii (allow "s3:GetObject" "*") (allow "s3:*" "*")).status
    ≡ expansion
unfolding running
widened = refl

-- A statement that the check does not read is never called safe.
unread : (check_no_expansion lower_ascii (allow "s3:*" "*") (allow "" "*")).status ≡ inconclusive
unfolding running
unread = refl

check_no_expansion_sound_example :
    Allows plain_reading lower_ascii (allow "s3:*" "*") (codes "s3:getobject") (codes "arn")
unfolding running
check_no_expansion_sound_example =
    check_no_expansion_sound plain_reading lower_ascii (allow "s3:*" "*") (allow "S3:GetObject" "*")
      (codes "s3:getobject") (codes "arn") refl
      (first (
        refl,
        first
            ((fnmatchcase_iff (lower_ascii (codes "S3:GetObject")) (codes "s3:getobject")).0 refl),
        first ((fnmatchcase_iff (codes "*") (codes "arn")).0 refl),
      ))

check_no_expansion_refl_example :
    (check_no_expansion lower_ascii (allow "s3:*" "*") (allow "s3:*" "*")).status ≡ safe
unfolding running
check_no_expansion_refl_example =
    check_no_expansion_refl lower_ascii (allow "s3:*" "*")
      (field "Effect" (str "Allow") (field "Action" (str "s3:*") (field "Resource" (str "*") end))
        ∷ [])
      refl

abbrev reviewed : List Fields
reviewed = field "action" (str "s3:GetObject") (field "resource" (str "arn:aws:s3:::logs") end) ∷ []

abbrev reviewed_policy : Value
reviewed_policy = obj (
    field "Version" (str "2012-10-17") (
      field "Statement"
        (arr (
          to_items (
            obj (
              field "Effect" (str "Allow") (
                field "Action" (str "s3:GetObject")
                  (field "Resource" (str "arn:aws:s3:::logs") end)))
            ∷ [])))
        end))

policy_from_evidence-exact_example :
    Allows plain_reading lower_ascii reviewed_policy
      (codes "s3:getobject")
      (codes "arn:aws:s3:::logs")
    ↔ Any
        (Covers plain_reading lower_ascii (codes "s3:getobject") (codes "arn:aws:s3:::logs"))
        reviewed
unfolding running
policy_from_evidence-exact_example =
    policy_from_evidence-exact plain_reading lower_ascii reviewed reviewed_policy
      (codes "s3:getobject") (codes "arn:aws:s3:::logs") refl
