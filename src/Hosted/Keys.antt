-- ===== src/Hosted/Keys.antt =====
-- The keys of the DynamoDB items tell the entities and their identities apart.
use Prim.Native.Char.{Char, code}
use Prim.Native.String.{[] as empty_text, ◌∷◌ as ◌∷ᵗ◌, ◌++◌ as ◌++ᵗ◌}
use Prim.Native.String.append
use text.Mathlib.TextLemmas.{append_cancel_left}
use aws_foundations.Base.{
  ℕ, eq_iff, ◌≡◌, ◌∙◌, ap, sym, false, String, refl, str_eq, str_eq_sound, Bool-cases, inl, inr,
  arith,
}
use aws_foundations.Base.Table.{pair_key}
use aws_foundations.Hosted.{pk, scan_key, deployment_key}

first_code : String → ℕ
first_code empty_text = 0
first_code (c ∷ᵗ s) = code c

first_code-append : (c : Char) (s t : String) → first_code ((c ∷ᵗ s) ++ᵗ t) ≡ code c
unfolding first_code
first_code-append c s t = ap first_code (append.cons c s t)

-- A scan's key and a deployment's begin with different letters.
scan_key-deployment_key : (a b : String) → str_eq (scan_key a) (deployment_key b) ≡ false
scan_key-deployment_key a b = elim (Bool-cases (str_eq (scan_key a) (deployment_key b))) [
  | inr differs ↦ differs
  | inl same ↦
      let h = str_eq_sound (scan_key a) (deployment_key b) same in
      let e : ◌≡◌ {A = ℕ} 83 68 =
        sym (first_code-append "S" "CAN#" a)
        ∙ ap first_code h
        ∙ first_code-append "D" "EPLOYMENT#" b in
      absurd (omega arith)
]

-- Texts with one prefix are compared by what follows it.
str_eq-prefix : (p a b : String) → str_eq (p ++ᵗ a) (p ++ᵗ b) ≡ str_eq a b
str_eq-prefix p a b = elim (Bool-cases (str_eq a b)) [
  | inl same ↦ (eq_iff (p ++ᵗ a) (p ++ᵗ b)).1 (ap (λ t. p ++ᵗ t) (str_eq_sound a b same)) ∙ sym same
  | inr differs ↦ elim (Bool-cases (str_eq (p ++ᵗ a) (p ++ᵗ b))) [
    | inr away ↦ away ∙ sym differs
    | inl joined ↦
        let e : a ≡ b = append_cancel_left p a b (str_eq_sound (p ++ᵗ a) (p ++ᵗ b) joined) in
        absurd (cc ((eq_iff a b).1 e, differs))
  ]
]

-- The keys of two scans, and of two deployments, are compared as tenants and identities are.
pub same_scan :
    (t u a b : String)
    → pair_key.same (pk t, scan_key a) (pk u, scan_key b) ≡ pair_key.same (t, a) (u, b)
same_scan t u a b = rw (str_eq-prefix "TENANT#" t u, str_eq-prefix "SCAN#" a b) refl

pub same_deployment :
    (t u a b : String)
    → pair_key.same (pk t, deployment_key a) (pk u, deployment_key b) ≡ pair_key.same (t, a) (u, b)
same_deployment t u a b = rw (str_eq-prefix "TENANT#" t u, str_eq-prefix "DEPLOYMENT#" a b) refl

pub scan_no_deployment :
    (t u a b : String) → pair_key.same (pk t, scan_key a) (pk u, deployment_key b) ≡ false
scan_no_deployment t u a b = rw (scan_key-deployment_key a b) (ground arith)

str_eq-sym : (a b : String) → str_eq a b ≡ str_eq b a
str_eq-sym a b = elim (Bool-cases (str_eq a b)) [
  | inl same ↦ same ∙ sym ((eq_iff b a).1 (sym (str_eq_sound a b same)))
  | inr differs ↦ elim (Bool-cases (str_eq b a)) [
    | inr away ↦ differs ∙ sym away
    | inl joined ↦ absurd (cc ((eq_iff a b).1 (sym (str_eq_sound b a joined)), differs))
  ]
]

pub deployment_no_scan :
    (t u a b : String) → pair_key.same (pk t, deployment_key a) (pk u, scan_key b) ≡ false
deployment_no_scan t u a b =
    rw (str_eq-sym (deployment_key a) (scan_key b), scan_key-deployment_key b a) (ground arith)
