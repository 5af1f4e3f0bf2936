-- ===== src/Prelude/Texts.antt =====
-- Texts: their bytes, by the numbers of their characters, and Rust's tests on them.
use Prim.Native.Nat.{ℕ, ◌≤◌}
use Prim.Native.Char.{code}
use Prim.Native.String.{String, len, compare, [], ◌∷◌}
use Prim.Native.String.len.{cons as len_cons}
use mathlib.Core.Path.{◌≡◌}
use mathlib.Core.Bool.{Bool, true, false, ◌&&◌}
use mathlib.Core.Option.{Option, none, some}
use mathlib.Core.List.{List}
use native.Mathlib.Omega.{arith}
use text.Mathlib.Text.{is_lt}
use vpn_ne_vpn.Prelude.Tests.{◌==◌, leb, ltb, if◌then◌else◌}

abbrev pub is_empty : String → Bool
is_empty s = len s == 0

-- `bytes().all(p)` for a test `p` that no byte of a character beyond ASCII passes.
abbrev pub all_bytes : (ℕ → Bool) → String → Bool
all_bytes p [] = true
all_bytes p (c ∷ s) = p (code c) && all_bytes p s

abbrev pub is_ascii_uppercase : ℕ → Bool
is_ascii_uppercase b = leb 65 b && leb b 90

-- `s < t` for texts.
abbrev pub precedes : String → String → Bool
precedes s t = is_lt (compare s t)

-- `s.len()`
abbrev pub bytes : String → ℕ
bytes s = len s

-- The numbers of the characters: the bytes, if the text is ASCII.
abbrev pub codes : String → List ℕ
codes [] = List.[]
codes (c ∷ s) = List.◌∷◌ (code c) (codes s)

abbrev pub is_ascii : ℕ → Bool
is_ascii b = ltb b 128

-- `s.strip_prefix(p)`
abbrev pub strip_prefix : String → String → Option String
strip_prefix [] s = some s
strip_prefix (c ∷ p) [] = none
strip_prefix (c ∷ p) (d ∷ s) = if code c == code d then strip_prefix p s else none

abbrev pub first_is : ℕ → List ℕ → Bool
first_is b List.[] = false
first_is b (List.◌∷◌ x xs) = x == b

abbrev pub last_is : ℕ → List ℕ → Bool
last_is b List.[] = false
last_is b (List.◌∷◌ x List.[]) = x == b
last_is b (List.◌∷◌ x (List.◌∷◌ y ys)) = last_is b (List.◌∷◌ y ys)

abbrev extend_first : ℕ → List (List ℕ) → List (List ℕ)
extend_first x List.[] = List.[]
extend_first x (List.◌∷◌ part parts) = List.◌∷◌ (List.◌∷◌ x part) parts

-- `s.split(b)`
abbrev pub split : ℕ → List ℕ → List (List ℕ)
split b List.[] = List.◌∷◌ List.[] List.[]
split b (List.◌∷◌ x xs) =
    let rest = split b xs in if x == b then List.◌∷◌ List.[] rest else extend_first x rest

pub all_bytes-strip_prefix :
    (q : ℕ → Bool) (p s t : String)
    → strip_prefix p s ≡ some t
    → all_bytes q s ≡ true
    → all_bytes q t ≡ true
all_bytes-strip_prefix q [] s t h a = ground arith
all_bytes-strip_prefix q (c ∷ p) [] t h a = ground arith
all_bytes-strip_prefix q (c ∷ p) (d ∷ s) t h a = ground (arith, all_bytes-strip_prefix q p s t)

pub len-strip_prefix-le : (p s t : String) → strip_prefix p s ≡ some t → len t ≤ len s
len-strip_prefix-le [] s t h = ground arith
len-strip_prefix-le (c ∷ p) [] t h = ground arith
len-strip_prefix-le (c ∷ p) (d ∷ s) t h = ground (arith, len_cons d s, len-strip_prefix-le p s t)
