-- ===== src/Prelude/Prefixes.antt =====
-- Python's tests on the beginning of a text, and a text as the list of its characters.
use Prim.Native.Nat.{ℕ}
use Prim.Native.Char.{code}
use Prim.Native.String.{String, [], ◌∷◌, ◌++◌}
use mathlib.Core.Path.{◌≡◌, refl}
use mathlib.Core.Bool.{Bool, true, ◌&&◌}
use mathlib.Core.Logic.{inl, inr}
use mathlib.Core.Option.{Option, none, some}
use native.Mathlib.Omega.{arith}
use text.Mathlib.TextLemmas.{nil-append, cons-append}
use text.Mathlib.TextEquality.{Char-path}
use nixbot.Prelude.Tests.{◌==◌, nat_eq, string_eq, if◌then◌else◌, Bool-cases}

-- `s.startswith(p)` together with `s.removeprefix(p)`
unfoldable pub strip_prefix : String → String → Option String
strip_prefix [] s = some s
strip_prefix (p ∷ ps) [] = none
strip_prefix (p ∷ ps) (c ∷ s) = if code p == code c then strip_prefix ps s else none

pub strip_prefix-append : (p s rest : String) → strip_prefix p s ≡ some rest → s ≡ p ++ rest
unfolding strip_prefix
strip_prefix-append [] s rest h = rw (nil-append rest) (ground (arith, h))
strip_prefix-append (p ∷ ps) [] rest h = ground (arith, h)
strip_prefix-append (p ∷ ps) (c ∷ s) rest h = elim (Bool-cases (code p == code c)) [
  | inl e ↦
      let same : code p ≡ code c = (nat_eq.beq_iff (code p) (code c)).0 e in
      let tail : strip_prefix ps s ≡ some rest = ground (arith, h, e) in
      rw (cons-append p ps rest, Char-path p c same, strip_prefix-append ps s rest tail) refl
  | inr e ↦ ground (arith, h, e)
]

-- Whether every character passes a test.
unfoldable pub all_chars : (ℕ → Bool) → String → Bool
all_chars p [] = true
all_chars p (c ∷ s) = p (code c) && all_chars p s

-- The longest beginning whose characters pass a test, and what stands behind it.
unfoldable pub span : (ℕ → Bool) → String → String × String
span p [] = ([], [])
span p (c ∷ s) =
    let (front, back) = span p s in if p (code c) then (c ∷ front, back) else ([], c ∷ s)

-- `p in s`
unfoldable pub is_infix : String → String → Bool
is_infix p [] = p == []
is_infix p (c ∷ s) = elim (strip_prefix p (c ∷ s)) [ some _ ↦ true | none ↦ is_infix p s ]

-- the text without a beginning and an end of characters that pass the test, as `str.strip` does
unfoldable pub strip_end : (ℕ → Bool) → String → String
strip_end p [] = []
strip_end p (c ∷ s) = let back = strip_end p s in if p (code c) && back == [] then [] else c ∷ back

abbrev pub strip : (ℕ → Bool) → String → String
strip p s = strip_end p (span p s).1

-- `s.split(c, 1)[0]` for a separator of one character
unfoldable pub split_char : ℕ → String → String
split_char sep [] = []
split_char sep (c ∷ s) = let front = split_char sep s in if code c == sep then [] else c ∷ front

-- `s.removesuffix(p)` for a suffix that is not empty
unfoldable pub remove_suffix : String → String → String
remove_suffix p [] = []
remove_suffix p (c ∷ s) = let rest = remove_suffix p s in if (c ∷ s) == p then [] else c ∷ rest

-- `s.partition(sep)[2]` for a separator of one character
unfoldable pub behind_char : ℕ → String → String
behind_char sep [] = []
behind_char sep (c ∷ s) = let rest = behind_char sep s in if code c == sep then s else rest
