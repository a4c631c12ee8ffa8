-- ===== src/Base/Text.antt =====
-- `str::split` at one byte and `str::strip_prefix`, over the characters of a text.
use Prim.Native.Nat.{ℕ}
use Prim.Native.Char.{Char, code}
use Prim.Native.String.{String, ◌++◌ as str_append}
use mathlib.Core.Path.{◌≡◌, refl}
use mathlib.Core.Logic.{◌≢◌}
use mathlib.Core.List.{List, [], ◌∷◌}
use mathlib.Core.Option.{Option, none, some}
use text.Mathlib.TextLemmas.{nil-append, cons-append}
use native.Mathlib.Omega.{arith}
use text.Mathlib.TextEquality.{Char-path}
use eva.Base.Tests.{nat_eq, if◌then◌else◌}

cons_char : Char → List String → List String
cons_char ch [] = String.◌∷◌ ch String.[] ∷ []
cons_char ch (x ∷ xs) = String.◌∷◌ ch x ∷ xs

unfoldable pub split_at : ℕ → String → List String
unfolding cons_char
split_at sep String.[] = String.[] ∷ []
split_at sep (String.◌∷◌ ch s) =
    let rest = split_at sep s in
    if nat_eq (code ch) sep then String.[] ∷ rest else cons_char ch rest

cons_char-ne-nil : (c : Char) (xs : List String) → cons_char c xs ≢ []
unfolding cons_char
cons_char-ne-nil c [] h = cc
cons_char-ne-nil c (x ∷ xs) h = cc

-- A split has at least one chunk.
pub split_at-ne-nil : (sep : ℕ) (s : String) → split_at sep s ≢ []
unfolding split_at
split_at-ne-nil sep String.[] h = cc
split_at-ne-nil sep (String.◌∷◌ ch s) h = ground (arith, cons_char-ne-nil ch (split_at sep s))

cons_char-injective :
    (c d : Char) (xs ys : List String)
    → xs ≢ []
    → ys ≢ []
    → cons_char c xs ≡ cons_char d ys
    → (c ≡ d) × (xs ≡ ys)
unfolding cons_char
cons_char-injective c d [] ys hx hy h = absurd (hx refl)
cons_char-injective c d (x ∷ xs) [] hx hy h = absurd (hy refl)
cons_char-injective c d (x ∷ xs) (y ∷ ys) hx hy h = (cc, cc)

cons_char-ne-empty : (c : Char) (xs ys : List String) → cons_char c xs ≢ String.[] ∷ ys
unfolding cons_char
cons_char-ne-empty c [] ys h = cc
cons_char-ne-empty c (x ∷ xs) ys h = cc

-- The chunks determine the text.
pub split_at-injective : (sep : ℕ) (s t : String) → split_at sep s ≡ split_at sep t → s ≡ t
unfolding split_at
split_at-injective sep String.[] String.[] h = refl
split_at-injective sep String.[] (String.◌∷◌ d t) h =
    ground (arith, split_at-ne-nil sep t, cons_char-ne-empty d (split_at sep t) [])
split_at-injective sep (String.◌∷◌ ch s) String.[] h =
    ground (arith, split_at-ne-nil sep s, cons_char-ne-empty ch (split_at sep s) [])
split_at-injective sep (String.◌∷◌ ch s) (String.◌∷◌ d t) h = ground (
  arith,
  split_at-ne-nil sep s,
  split_at-ne-nil sep t,
  cons_char-ne-empty ch (split_at sep s) (split_at sep t),
  cons_char-ne-empty d (split_at sep t) (split_at sep s),
  cons_char-injective ch d (split_at sep s) (split_at sep t),
  Char-path ch d,
  split_at-injective sep s t,
)

unfoldable pub strip_prefix : String → String → Option String
strip_prefix String.[] s = some s
strip_prefix (String.◌∷◌ ch prefix) String.[] = none
strip_prefix (String.◌∷◌ ch prefix) (String.◌∷◌ d s) =
    let rest = strip_prefix prefix s in if nat_eq (code ch) (code d) then rest else none

pub strip_prefix-append : (prefix s : String) → strip_prefix prefix (str_append prefix s) ≡ some s
unfolding strip_prefix
strip_prefix-append String.[] s = rw (nil-append s) refl
strip_prefix-append (String.◌∷◌ ch prefix) s =
    rw (cons-append ch prefix s) (ground (arith, strip_prefix-append prefix s))

pub append-strip_prefix :
    (prefix s t : String) → strip_prefix prefix s ≡ some t → s ≡ str_append prefix t
unfolding strip_prefix
append-strip_prefix String.[] s t h = rw (nil-append t) (cc h)
append-strip_prefix (String.◌∷◌ ch prefix) String.[] t h = cc
append-strip_prefix (String.◌∷◌ ch prefix) (String.◌∷◌ d s) t h =
    rw (cons-append ch prefix t) (ground (arith, append-strip_prefix prefix s t, Char-path ch d, h))
