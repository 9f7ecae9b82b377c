-- ===== src/Contracts/Tests.antt =====
-- Requests that the contract accepts and refuses.
use aws_foundations.Base.{
  ◌≡◌, refl, Bool, true, false, [], ◌∷◌, String, ok, raised, any, all, one_of, codes, text_eq,
}
use aws_foundations.Base.Int.{pos}
use aws_foundations.Base.Json.{Value, str, num, arr, obj, Items, field, end, get, items}
use aws_foundations.Contracts.{
  Request, is_alnum, is_hex, named, is_principal, after_prefix, before_suffix, hex_32, is_run_id,
  archive_name, is_upload_key, is_https, insert_name, sorted_set, text_where, environment_list,
  valid_environments, valid_audience, bounded_generation, valid_generation, is_true, is_source,
  validate_fields, validate_request,
}
use aws_foundations.Contracts.Accepted.{IsAccepted, validate_request-IsAccepted}

checking : Unit {0}
unfolding is_alnum is_hex named is_principal after_prefix before_suffix hex_32 is_run_id
    archive_name is_upload_key is_https insert_name sorted_set text_where environment_list
    valid_environments valid_audience bounded_generation valid_generation is_true is_source
    validate_fields validate_request get items any all one_of codes text_eq
checking = tt

abbrev pub all_printable : String → Bool
all_printable s = true

abbrev pub request_from : String → Value
request_from source = obj (
    field "tenant_id" (str "acme") (
      field "user_id" (str "ada@acme") (
        field "run_id" (str "run-0123456789abcdef0123456789abcdef") (
          field "source_ref" (str source) (
            field "environments"
              (arr (Items.cons (str "staging") (Items.cons (str "development") Items.nil)))
              (field "generation" (num (pos 2)) end))))))

abbrev pub accepted_from : String → Request
accepted_from source = record {
  tenant_id = "acme";
  user_id = "ada@acme";
  run_id = "run-0123456789abcdef0123456789abcdef";
  source_ref = source;
  environments = "development" ∷ "staging" ∷ [];
  audience = "beginner";
  generation = 2;
  refresh = false;
}

pub upload_is_accepted :
    validate_request all_printable (request_from "upload:site-1.zip") "aws"
    ≡ ok (accepted_from "upload:site-1.zip")
unfolding checking
upload_is_accepted = refl

-- A hosted worker does not read its own files.
path_is_refused :
    validate_request all_printable (request_from "/etc/passwd") "aws"
    ≡ raised "unsupported_source_ref"
unfolding checking
path_is_refused = refl

validate_request-IsAccepted_example :
    IsAccepted all_printable "aws" (accepted_from "upload:site-1.zip")
validate_request-IsAccepted_example =
    validate_request-IsAccepted all_printable "aws" (request_from "upload:site-1.zip")
      (accepted_from "upload:site-1.zip") upload_is_accepted
