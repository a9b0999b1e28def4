-- ===== src/Base/Text.antt =====
-- Python's `str`, as the list of its code points, with the methods that the program calls.
use Prim.Native.Nat.{ℕ, ◌+◌}
use Prim.Native.Char.{code}
use Prim.Native.String.{String}
use mathlib.Core.Path.{◌≡◌, refl, ap₂}
use mathlib.Core.Bool.{Bool, true, false, ◌&&◌}
use mathlib.Core.List.{List, [], ◌∷◌, map}
use native.Mathlib.Omega.{arith}
use uzh_blockchain_data_coll.Base.Tests.{leb, if◌then◌else◌}
use uzh_blockchain_data_coll.Base.Equality.{◌==◌, nat_eq}

abbrev pub Str : Type 0
Str = List ℕ

-- A literal of the source.
abbrev pub str : String → Str
str String.[] = []
str (String.◌∷◌ c s) = code c ∷ str s

-- `bool(s)`: only the empty string is falsy.
abbrev pub truthy : Str → Bool
truthy [] = false
truthy (c ∷ s) = true

-- `str.lower` on ASCII letters; it leaves every other code point alone.
abbrev pub lower_char : ℕ → ℕ
lower_char c = if leb b'A' c && leb c b'Z' then c + 32 else c

unfoldable pub lower : Str → Str
lower s = map lower_char s

lower_char-lower_char : (c : ℕ) → lower_char (lower_char c) ≡ lower_char c
lower_char-lower_char c = ground arith

pub lower-lower : (s : Str) → lower (lower s) ≡ lower s
unfolding lower
lower-lower [] = refl
lower-lower (c ∷ s) = ap₂ ◌∷◌ (lower_char-lower_char c) (lower-lower s)

-- `s.split(sep)` for a separator of one character: one piece more than there are separators.
abbrev pub cons_head : ℕ → List Str → List Str
cons_head c [] = (c ∷ []) ∷ []
cons_head c (p ∷ ps) = (c ∷ p) ∷ ps

unfoldable pub split : ℕ → Str → List Str
split sep [] = [] ∷ []
split sep (c ∷ s) = let rest = split sep s in if c == sep then [] ∷ rest else cons_head c rest
