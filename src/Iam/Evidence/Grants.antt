-- ===== src/Iam/Evidence/Grants.antt =====
-- A policy that is built from evidence grants what the operations name, and nothing else.
use aws_foundations.Base.{
  Any, first, later, ◌↔◌, ℕ, ◌≡◌, ◌∙◌, refl, sym, ap, false, List, [], ◌∷◌, some, String, subst, ok,
  any, has_char, codes, arith,
}
use aws_foundations.Base.Json.{Value, str, Fields, get}
use aws_foundations.Iam.Evidence.{inexact, policy_from_evidence, grant_of, Operation}
use aws_foundations.Iam.Evidence.Built.{Built, none_left, built, policy_from_evidence-Built}
use aws_foundations.Iam.Meaning.{Reading, written, written_statements, Grants, Allows}
use aws_foundations.Iam.Reading.{Read, statements-Read}
use aws_foundations.Iam.Glob.{Glob-refl}

exact-plain :
    (t : List ℕ)
    → has_char "*?${}[]" t ≡ false
    → (has_char "*?${}" t ≡ false) × (has_char "${}" t ≡ false)
unfolding has_char any codes
exact-plain [] h = (refl, refl)
exact-plain (c ∷ t) h = ground (arith, exact-plain t)

module _ (R : Reading) (lower : List ℕ → List ℕ) (a r : List ℕ) where
  open R use {Matches, literal, wildcard}

  -- The request fits one operation: its action matches, and its resource is the one written there.
  pub record Covers (d : Fields) : Type 0 where
    pub action : String
    pub resource : String
    pub from_action : get "action" d ≡ some (str action)
    pub from_resource : get "resource" d ≡ some (str resource)
    pub matched : Matches (lower (codes action)) (lower a)
    pub exact : r ≡ codes resource

  exact-Matches : (t : List ℕ) → inexact t ≡ false → (Matches t r) ↔ (r ≡ t)
  unfolding inexact
  exact-Matches t h =
      let plain = exact-plain t (ground arith) in
      (literal t r plain.0, λ e. rw e (wildcard t t plain.1 (Glob-refl t)))

  Grants-Covers :
      (d : Fields) (v : Value) (o : Operation d v)
      → Grants R lower a r (grant_of o.action o.resource)
      → Covers d
  unfolding get written
  Grants-Covers d v o (_, first ma, first mr) = record {
    action = o.action;
    resource = o.resource;
    from_action = o.from_action;
    from_resource = o.from_resource;
    matched = ma;
    exact = (exact-Matches (codes o.resource) o.exact_resource).0 mr;
  }
  Grants-Covers d v o (_, first ma, later x) = elim x [ ]
  Grants-Covers d v o (_, later x, _) = elim x [ ]

  Covers-Grants :
      (d : Fields) (v : Value) (o : Operation d v)
      → Covers d
      → Grants R lower a r (grant_of o.action o.resource)
  unfolding get written
  Covers-Grants d v o c =
      let same_action : c.action ≡ o.action = cc (c.from_action, o.from_action) in
      let same_resource : c.resource ≡ o.resource = cc (c.from_resource, o.from_resource) in
      (
        refl,
        first (subst (λ p. Matches (lower (codes p)) (lower a)) same_action c.matched),
        first (
            (exact-Matches (codes o.resource) o.exact_resource).1
              (c.exact ∙ ap codes same_resource)),
      )

  Built-Grants : (ds ss : List Fields) → Built ds ss → Any (Grants R lower a r) ss ↔ Any Covers ds
  Built-Grants _ _ none_left = (λ h. elim h [ ], λ h. elim h [ ])
  Built-Grants _ _ (built {d = d} {v = v} {ds = ds} {ss = ss} o b) =
      (down (Built-Grants ds ss b).0, up (Built-Grants ds ss b).1)
    where
      down :
          (Any (Grants R lower a r) ss → Any Covers ds)
          → Any (Grants R lower a r) (grant_of o.action o.resource ∷ ss)
          → Any Covers (d ∷ ds)
      down ih (first g) = first (Grants-Covers d v o g)
      down ih (later g) = later (ih g)

      up :
          (Any Covers ds → Any (Grants R lower a r) ss)
          → Any Covers (d ∷ ds)
          → Any (Grants R lower a r) (grant_of o.action o.resource ∷ ss)
      up ih (first c) = first (Covers-Grants d v o c)
      up ih (later c) = later (ih c)

-- A policy that is built from reviewed operations grants a request exactly if one of the operations
-- has an action that matches and a resource that is the request's own.
pub policy_from_evidence-exact :
    (R : Reading) (lower : List ℕ → List ℕ) (ds : List Fields) (policy : Value) (a r : List ℕ)
    → policy_from_evidence ds ≡ ok policy
    → Allows R lower policy a r ↔ Any (Covers R lower a r) ds
policy_from_evidence-exact R lower ds policy a r h =
    let (ss, e, b) = policy_from_evidence-Built ds policy h in
    let read : Read (written_statements policy) ss = statements-Read policy ss e in
    subst (λ ts. Any (Grants R lower a r) ts ↔ Any (Covers R lower a r) ds) (sym read.same)
      (Built-Grants R lower a r ds ss b)
