-- ===== src/Prelude/Texts.antt =====
-- Texts as JavaScript has them: sequences of UTF-16 code units. A literal of the source whose
-- characters lie in the basic plane is `text "…"`.
use Prim.Native.Char.{code}
use Prim.Native.Nat.{ℕ, ◌+◌}
use Prim.Native.String.{String}
use mathlib.Core.Path.{◌≡◌, refl, ap}
use mathlib.Core.Logic.{◌↔◌, ◌⊎◌}
use mathlib.Core.Bool.{Bool, true, false, not, ◌&&◌, ◌||◌}
use mathlib.Core.Option.{Option, none, some}
use mathlib.Core.List.{List, [], ◌∷◌, ◌++◌, reverse}
use native.Mathlib.Omega.{arith}
use f_chat_backend.Prelude.Tests.{leb, nat_eq, if◌then◌else◌}

abbrev pub Text : Type 0
Text = List ℕ

abbrev pub text : String → Text
text String.[] = []
text (String.◌∷◌ c s) = code c ∷ text s

infix 50 ◌==◌
-- `===` on two strings
unfoldable pub ◌==◌ : Text → Text → Bool
[] == [] = true
[] == (b ∷ t) = false
(a ∷ s) == [] = false
(a ∷ s) == (b ∷ t) = nat_eq a b && (s == t)

pub ==_refl : (s : Text) → (s == s) ≡ true
unfolding ◌==◌
==_refl [] = refl
==_refl (a ∷ s) = ground (arith, ==_refl s)

pub ==_sound : (s t : Text) → (s == t) ≡ true → s ≡ t
unfolding ◌==◌
==_sound [] [] h = refl
==_sound [] (b ∷ t) h = cc
==_sound (a ∷ s) [] h = cc
==_sound (a ∷ s) (b ∷ t) h = ground (arith, ==_sound s t)

pub ==_iff : (s t : Text) → ((s == t) ≡ true) ↔ (s ≡ t)
==_iff s t = (==_sound s t, λ e. ground (arith, ==_refl s, ap (λ u. s == u) e))

pub ==_comm : (s t : Text) → (s == t) ≡ (t == s)
==_comm s t = ground (arith, ==_iff s t, ==_iff t s)

-- `o || null`, or the test `if (o)`: the empty text counts as absent.
unfoldable pub truthy : Option Text → Option Text
truthy none = none
truthy (some []) = none
truthy (some (c ∷ s)) = some (c ∷ s)

-- xs.includes(x), set.has(x)
unfoldable pub includes : List Text → Text → Bool
includes [] v = false
includes (x ∷ xs) v = (x == v) || includes xs v

pub includes-append :
    (xs ys : List Text) (v : Text) → includes (xs ++ ys) v ≡ (includes xs v || includes ys v)
unfolding includes
includes-append [] ys v = refl
includes-append (x ∷ xs) ys v = ground (arith, includes-append xs ys v)

-- s.startsWith(prefix)
unfoldable pub starts_with : Text → Text → Bool
starts_with s [] = true
starts_with [] (p ∷ ps) = false
starts_with (c ∷ s) (p ∷ ps) = nat_eq c p && starts_with s ps

-- s.includes(part)
unfoldable pub contains : Text → Text → Bool
unfolding starts_with
contains [] part = starts_with [] part
contains (c ∷ s) part = starts_with (c ∷ s) part || contains s part

-- The white space of `trim` and of `\s`: the line terminators, tab, VT, FF, and the space
-- separators.
unfoldable pub is_space : ℕ → Bool
is_space c =
    (leb 9 c && leb c 13)
    || nat_eq c 32
    || nat_eq c 0xa0
    || nat_eq c 0x1680
    || (leb 0x2000 c && leb c 0x200a)
    || nat_eq c 0x2028
    || nat_eq c 0x2029
    || nat_eq c 0x202f
    || nat_eq c 0x205f
    || nat_eq c 0x3000
    || nat_eq c 0xfeff

unfoldable pub trim_start : Text → Text
unfolding is_space
trim_start [] = []
trim_start (c ∷ s) = let rest = trim_start s in if is_space c then rest else c ∷ s

-- s.trim()
unfoldable pub trim : Text → Text
unfolding trim_start
trim s = reverse (trim_start (reverse (trim_start s)))

-- The lower-case form on Latin-1; every other unit is left. The source compares the result with
-- words of Latin letters a-z only.
unfoldable pub lower_unit : ℕ → ℕ
lower_unit c =
    if (leb 65 c && leb c 90) || (leb 0xc0 c && leb c 0xde && not (nat_eq c 0xd7))
    then c + 32
    else c

-- s.toLowerCase()
unfoldable pub to_lower : Text → Text
unfolding lower_unit
to_lower [] = []
to_lower (c ∷ s) = lower_unit c ∷ to_lower s

pub includes-cases :
    (xs ys : List Text) (v : Text)
    → includes (xs ++ ys) v ≡ true
    → (includes xs v ≡ true) ⊎ (includes ys v ≡ true)
includes-cases xs ys v h = ground (arith, includes-append xs ys v)

pub includes_one : (u v : Text) → includes (u ∷ []) v ≡ true → u ≡ v
unfolding includes
includes_one u v h = ground (arith, ==_iff u v)

-- No two entries are one text.
abbrev pub IsDistinct : List Text → Type 0
IsDistinct [] = Unit
IsDistinct (k ∷ ks) = (includes ks k ≡ false) × IsDistinct ks

pub IsDistinct-append :
    (ks : List Text) (k : Text) → IsDistinct ks → includes ks k ≡ false → IsDistinct (ks ++ k ∷ [])
unfolding includes
IsDistinct-append [] k h n = (refl, tt)
IsDistinct-append (j ∷ ks) k h n = (
  ground (arith, includes-append ks (k ∷ []) j, h.0, ==_iff k j, ==_iff j k),
  IsDistinct-append ks k h.1 (ground arith),
)
