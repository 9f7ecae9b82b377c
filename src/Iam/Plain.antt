-- ===== src/Iam/Plain.antt =====
-- A reading of policies with no policy variables, and letter case in ASCII: the examples' own.
use aws_foundations.Base.{
  ℕ, ◌+◌, ◌≡◌, refl, false, ◌&&◌, List, map, any, codes, has_char, leb, if◌then◌else◌, arith,
}
use aws_foundations.Iam.Glob.{Glob, done, skip, more, single, letter}
use aws_foundations.Iam.Meaning.{Reading}

abbrev pub lower_ascii : List ℕ → List ℕ
lower_ascii = map (λ c. if leb b'A' c && leb c b'Z' then c + 32 else c)

-- A plain text stands for itself alone.
pub Glob-literal : (p v : List ℕ) → has_char "*?${}" p ≡ false → Glob p v → v ≡ p
unfolding has_char any codes
Glob-literal _ _ h done = refl
Glob-literal _ _ h (skip e g) = absurd (ground arith)
Glob-literal _ _ h (more e g) = absurd (ground arith)
Glob-literal _ _ h (single e g) = absurd (ground arith)
Glob-literal _ _ h (letter {c = c} {p = p} {s = s} star mark e g) =
    cc (e, Glob-literal p s (ground arith) g)

abbrev pub plain_reading : Reading
plain_reading = record { Matches = Glob; literal = Glob-literal; wildcard = λ p v h g. g }
