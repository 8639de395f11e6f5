-- ===== src/Prelude/Texts.antt =====
-- Python's `str.rpartition` for a separator of one character.
use Prim.Native.Nat.{ℕ}
use Prim.Native.Char.{Char, code}
use Prim.Native.String.{String, [], ◌∷◌, ◌++◌}
use mathlib.Core.Path.{◌≡◌, refl, ap, ◌∙◌}
use mathlib.Core.Bool.{Bool, true, false}
use mathlib.Core.Option.{Option, none, some}
use native.Mathlib.Omega.{arith}
use text.Mathlib.TextLemmas.{nil-append, cons-append}
use nixbot.Prelude.Tests.{◌==◌, nat_eq, if◌then◌else◌}

-- Whether the character of that number stands in the text.
unfoldable pub has_char : ℕ → String → Bool
has_char sep [] = false
has_char sep (c ∷ s) = if code c == sep then true else has_char sep s

abbrev pub extend : Char → ℕ → String → Option (String × String) → Option (String × String)
extend c sep s (some (front, back)) = some (c ∷ front, back)
extend c sep s none = if code c == sep then some ([], s) else none

-- The parts before and behind the last separator; `none` where there is no separator.
unfoldable pub rpartition : ℕ → String → Option (String × String)
rpartition sep [] = none
rpartition sep (c ∷ s) = extend c sep s (rpartition sep s)

pub rpartition-none : (sep : ℕ) (s : String) → has_char sep s ≡ false → rpartition sep s ≡ none
unfolding has_char rpartition
rpartition-none sep [] h = refl
rpartition-none sep (c ∷ s) h = ground (arith, rpartition-none sep s)

-- The text behind a separator that has no other one is found.
pub rpartition-append :
    (c : Char) (front back : String)
    → has_char (code c) back ≡ false
    → rpartition (code c) (front ++ (c ∷ back)) ≡ some (front, back)
unfolding rpartition
rpartition-append c [] back h =
    rw (nil-append (c ∷ back))
      (rw (rpartition-none (code c) back h) (ground (arith, nat_eq.beq_iff (code c) (code c))))
rpartition-append c (d ∷ front) back h =
    rw (cons-append d front (c ∷ back)) (rw (rpartition-append c front back h) refl)

abbrev colon_char : Char
colon_char = ":"

pub rpartition-colon :
    (front back : String)
    → has_char 58 back ≡ false
    → rpartition 58 (front ++ (":" ++ back)) ≡ some (front, back)
rpartition-colon front back h =
    ap (λ t. rpartition 58 (front ++ t))
      (cons-append colon_char [] back ∙ ap (λ t. colon_char ∷ t) (nil-append back))
    ∙ rpartition-append colon_char front back h
