-- ===== src/Iam/Meaning.antt =====
-- What an identity policy grants, read off the document with no reference to the check.
use aws_foundations.Base.{
  ℕ, ◌≡◌, true, false, List, [], ◌∷◌, Option, some, String, Any, codes, has_char,
}
use aws_foundations.Base.Json.{Value, str, arr, obj, Fields, items, get, is_text}
use aws_foundations.Iam.Glob.{Glob}

-- AWS's reading of one pattern: which values of a request it matches. Policy variables (`${…}`)
-- are AWS's own; what is known of a pattern without them is the documented wildcard rule.
pub record Reading : Type 1 where
  pub Matches : List ℕ → List ℕ → Type 0
  -- A text with no wildcard and no variable matches itself alone.
  pub literal : (p v : List ℕ) → has_char "*?${}" p ≡ false → Matches p v → v ≡ p
  -- A pattern with no variable matches what its wildcards describe.
  pub wildcard : (p v : List ℕ) → has_char "${}" p ≡ false → Glob p v → Matches p v

-- the texts of a field that holds one text or a list of them
unfoldable pub texts_of : List Value → List String
texts_of [] = []
texts_of (str s ∷ vs) = s ∷ texts_of vs
texts_of (v ∷ vs) = texts_of vs

unfoldable pub written : Option Value → List String
written (some (str s)) = s ∷ []
written (some (arr vs)) = texts_of (items vs)
written _ = []

unfoldable pub objects : List Value → List Fields
objects [] = []
objects (obj s ∷ vs) = s ∷ objects vs
objects (v ∷ vs) = objects vs

-- the statements of a document that holds one statement or a list of them
unfoldable pub written_list : Option Value → List Fields
written_list (some (obj s)) = s ∷ []
written_list (some (arr vs)) = objects (items vs)
written_list _ = []

unfoldable pub written_statements : Value → List Fields
written_statements (obj policy) = written_list (get "Statement" policy)
written_statements _ = []

module _ (R : Reading) (lower : List ℕ → List ℕ) where
  open R use {Matches}

  -- An `Allow` statement grants a request that one of its actions and one of its resources match;
  -- actions are compared without case.
  abbrev pub Grants : List ℕ → List ℕ → Fields → Type 0
  Grants action resource s =
      (is_text (get "Effect" s) "Allow" ≡ true)
      × Any (λ p. Matches (lower (codes p)) (lower action)) (written (get "Action" s))
      × Any (λ p. Matches (codes p) resource) (written (get "Resource" s))

  abbrev pub Allows : Value → List ℕ → List ℕ → Type 0
  Allows policy action resource = Any (Grants action resource) (written_statements policy)
