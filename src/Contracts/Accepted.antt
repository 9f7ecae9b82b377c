-- ===== src/Contracts/Accepted.antt =====
-- What an accepted request is known to satisfy.
use aws_foundations.Base.{
  ℕ, ◌≤◌, ◌≡◌, ◌⊎◌, refl, subst, Bool, true, false, not, ◌&&◌, ◌||◌, List, [], ◌∷◌, Option, none,
  some, String, ok, >>=-eq-ok, ok-injective, raise_if, arith, one_of, one_of_two, one_of_three,
  codes, length, eq_iff, str_eq, All, All-map, Bool-cases, inl, inr,
}
use aws_foundations.Base.Int.{pos, negsuc}
use aws_foundations.Base.Json.{Value, bool, num, str, arr, obj, Fields, items, get}
use Prim.Native.String.{compare}
use Prim.Native.Nat.{Ordering}
use aws_foundations.Contracts.Shapes.{
  IsPrincipalMark, IsNamed, IsRunId, IsHttps, IsUpload, is_principal-IsNamed, is_run_id-IsRunId,
  is_https-IsHttps, is_upload_key-IsUpload,
}
use aws_foundations.Contracts.{
  Request, text_where, is_principal, is_run_id, is_https, is_upload_key, is_source,
  environment_list, environment_names, valid_environments, valid_audience, audiences,
  valid_generation, bounded_generation, max_generations, validate_fields, validate_request,
  sorted_set, insert_name, is_true,
}

-- What the pipeline relies on in a request.
pub record IsAccepted (is_printable : String → Bool) (mode : String) (r : Request) : Type 0 where
  pub tenant : IsNamed IsPrincipalMark (codes r.tenant_id)
  pub user : IsNamed IsPrincipalMark (codes r.user_id)
  pub run : IsRunId (codes r.run_id)
  pub source_size : (1 ≤ length (codes r.source_ref)) × (length (codes r.source_ref) ≤ 2048)
  pub source_text : is_printable r.source_ref ≡ true
  pub hosted : mode ≡ "aws" → IsHttps (codes r.source_ref) ⊎ IsUpload (codes r.source_ref)
  pub known : All (λ e. (e ≡ "development") ⊎ (e ≡ "staging") ⊎ (e ≡ "production")) r.environments
  pub audience : (r.audience ≡ "beginner") ⊎ (r.audience ≡ "developer")
  pub generation : r.generation ≤ 5

text_where-ok :
    (test : String → Bool) (code : String) (v : Option Value) (s : String)
    → text_where test code v ≡ ok s
    → test s ≡ true
unfolding text_where
text_where-ok test code (some (str t)) s h = ground arith
text_where-ok test code (some _) s h = cc
text_where-ok test code none s h = cc

valid_generation-ok : (v : Option Value) (n : ℕ) → valid_generation v ≡ ok n → n ≤ max_generations
unfolding valid_generation bounded_generation
valid_generation-ok none n h = ground arith
valid_generation-ok (some (num (pos m))) n h = ground arith
valid_generation-ok (some (num (negsuc m))) n h = cc
valid_generation-ok (some (bool true)) n h = ground arith
valid_generation-ok (some (bool false)) n h = ground arith
valid_generation-ok (some _) n h = cc

valid_audience-ok :
    (v : Option Value) (s : String) → valid_audience v ≡ ok s → one_of s audiences ≡ true
unfolding valid_audience one_of
valid_audience-ok none s h =
    let same : "beginner" ≡ s = cc in subst (λ (t : String). one_of t audiences ≡ true) same refl
valid_audience-ok (some v) s h =
    text_where-ok (λ t. one_of t audiences) "invalid_audience" (some v) s h

environment_list-known :
    (vs : List Value) (ss : List String)
    → environment_list vs ≡ ok ss
    → All (λ e. one_of e environment_names ≡ true) ss
unfolding environment_list
environment_list-known [] [] h = tt
environment_list-known [] (s ∷ ss) h = cc
environment_list-known (str s ∷ vs) ss h =
    let (rest, e, k) = >>=-eq-ok (environment_list vs) _ h in
    elim (Bool-cases (one_of s environment_names)) [
      | inr unknown ↦ absurd (ground arith)
      | inl known ↦
          let same : s ∷ rest ≡ ss = ground arith in
          subst (All _) same (known, environment_list-known vs rest e)
    ]
environment_list-known (arr x ∷ vs) ss h = cc
environment_list-known (obj x ∷ vs) ss h = cc
environment_list-known (v ∷ vs) ss h = let (rest, e, k) = >>=-eq-ok (environment_list vs) _ h in cc

valid_environments-known :
    (v : Option Value) (ss : List String)
    → valid_environments v ≡ ok ss
    → All (λ e. one_of e environment_names ≡ true) ss
unfolding valid_environments
valid_environments-known none [] h = tt
valid_environments-known none (s ∷ ss) h = cc
valid_environments-known (some (arr vs)) ss h = environment_list-known (items vs) ss (ground arith)
valid_environments-known (some _) ss h = cc

module _ (P : String → Type 0) where
  insert_name-All : (s : String) (ss : List String) → P s → All P ss → All P (insert_name s ss)
  unfolding insert_name
  insert_name-All s [] p ps = (p, tt)
  insert_name-All s (t ∷ ts) p (pt, ps) =
      elim (compare s t)
        as (λ o. All P (elim o [
          | Ordering.lt ↦ s ∷ t ∷ ts
          | Ordering.eq ↦ t ∷ ts
          | Ordering.gt ↦ t ∷ insert_name s ts
        ])) [
          | Ordering.lt ↦ (p, (pt, ps))
          | Ordering.eq ↦ (pt, ps)
          | Ordering.gt ↦ (pt, insert_name-All s ts p ps)
        ]

  sorted_set-All : (ss : List String) → All P ss → All P (sorted_set ss)
  unfolding sorted_set
  sorted_set-All [] h = tt
  sorted_set-All (s ∷ ss) (p, ps) = insert_name-All s (sorted_set ss) p (sorted_set-All ss ps)

is_source-lem :
    (is_printable : String → Bool) (s : String)
    → is_source is_printable s ≡ true
    → ((1 ≤ length (codes s)) × (length (codes s) ≤ 2048)) × (is_printable s ≡ true)
unfolding is_source
is_source-lem is_printable s h = ground arith

hosted_source :
    (mode source : String) {t : Unit}
    → raise_if {E = String}
        (str_eq mode "aws" && not (is_https source || is_upload_key source))
        "unsupported_source_ref"
      ≡ ok t
    → mode ≡ "aws"
    → IsHttps (codes source) ⊎ IsUpload (codes source)
hosted_source mode source h aws =
    let same = (eq_iff mode "aws").1 aws in
    elim (Bool-cases (is_https source)) [
      | inl web ↦ inl (is_https-IsHttps source web)
      | inr other ↦ inr (is_upload_key-IsUpload source (ground arith))
    ]

validate_fields-ok :
    (is_printable : String → Bool) (mode : String) (d : Fields) (r : Request)
    → validate_fields is_printable mode d ≡ ok r
    → IsAccepted is_printable mode r
unfolding validate_fields
validate_fields-ok is_printable mode d r h =
    let (tenant, e1, h1) =
      >>=-eq-ok (text_where is_principal "invalid_principal" (get "tenant_id" d)) _ h in
    let (user, e2, h2) =
      >>=-eq-ok (text_where is_principal "invalid_principal" (get "user_id" d)) _ h1 in
    let (run_id, e3, h3) =
      >>=-eq-ok (text_where is_run_id "invalid_run_id" (get "run_id" d)) _ h2 in
    let (source, e4, h4) =
      >>=-eq-ok (text_where (is_source is_printable) "invalid_source_ref" (get "source_ref" d)) _
        h3 in
    let (_, e5, h5) =
      >>=-eq-ok
        (raise_if (str_eq mode "aws" && not (is_https source || is_upload_key source))
          "unsupported_source_ref")
        _ h4 in
    let (environments, e6, h6) = >>=-eq-ok (valid_environments (get "environments" d)) _ h5 in
    let (audience, e7, h7) = >>=-eq-ok (valid_audience (get "audience" d)) _ h6 in
    let (generation, e8, h8) = >>=-eq-ok (valid_generation (get "generation" d)) _ h7 in
    let accepted : Request = record {
      tenant_id = tenant;
      user_id = user;
      run_id = run_id;
      source_ref = source;
      environments = sorted_set environments;
      audience = audience;
      generation = generation;
      refresh = is_true (get "refresh" d);
    } in
    let same : accepted ≡ r = ok-injective h8 in
    subst (IsAccepted is_printable mode) same (record {
      tenant = is_principal-IsNamed tenant (text_where-ok _ _ _ tenant e1);
      user = is_principal-IsNamed user (text_where-ok _ _ _ user e2);
      run = is_run_id-IsRunId run_id (text_where-ok _ _ _ run_id e3);
      source_size = (is_source-lem is_printable source (text_where-ok _ _ _ source e4)).0;
      source_text = (is_source-lem is_printable source (text_where-ok _ _ _ source e4)).1;
      hosted = hosted_source mode source e5;
      known =
          All-map (sorted_set environments)
            (λ e. (one_of_three e "development" "staging" "production").0)
            (sorted_set-All _ environments (valid_environments-known _ environments e6));
      audience = (one_of_two audience "beginner" "developer").0 (valid_audience-ok _ audience e7);
      generation = valid_generation-ok _ generation e8;
    })

-- An accepted request has principals of 1 to 128 letters, digits and marks, a run id of "run-" and 32
-- hexadecimal digits, a printable source of 1 to 2048 characters, only the three known environments,
-- one of the two audiences, and a generation of at most 5; in AWS mode its source begins with
-- "https://" or is "upload:", an archive's name and ".zip".
pub validate_request-IsAccepted :
    (is_printable : String → Bool) (mode : String) (v : Value) (r : Request)
    → validate_request is_printable v mode ≡ ok r
    → IsAccepted is_printable mode r
unfolding validate_request
validate_request-IsAccepted is_printable mode (obj d) r h =
    validate_fields-ok is_printable mode d r h
validate_request-IsAccepted is_printable mode _ r h = cc
