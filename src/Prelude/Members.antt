-- ===== src/Prelude/Members.antt =====
-- Lists of ids: membership as a test, no id twice, and `retain(|x| *x != id)`.
use Prim.Native.Nat.{ℕ}
use mathlib.Core.Path.{◌≡◌, refl}
use mathlib.Core.Bool.{Bool, false, ◌||◌}
use mathlib.Core.List.{List, [], ◌∷◌, ◌++◌}
use native.Mathlib.Omega.{arith}
use vpn_ne_vpn.Prelude.Tests.{◌==◌, if◌then◌else◌}

abbrev pub member : ℕ → List ℕ → Bool
member a [] = false
member a (x ∷ xs) = x == a || member a xs

abbrev pub Once : List ℕ → Type 0
Once [] = Unit {0}
Once (x ∷ xs) = (member x xs ≡ false) × Once xs

abbrev pub retain_ne : ℕ → List ℕ → List ℕ
retain_ne a [] = []
retain_ne a (x ∷ xs) = let rest = retain_ne a xs in if x == a then rest else x ∷ rest

pub member-append : (a : ℕ) (xs ys : List ℕ) → member a (xs ++ ys) ≡ (member a xs || member a ys)
member-append a [] ys = refl
member-append a (x ∷ xs) ys = ground (arith, member-append a xs ys)

pub append-Once : (a : ℕ) (xs : List ℕ) → Once xs → member a xs ≡ false → Once (xs ++ (a ∷ []))
append-Once a [] o h = (refl, tt)
append-Once a (x ∷ xs) o h = ground (arith, member-append x xs (a ∷ []), append-Once a xs o.1)

pub member-retain_ne :
    (a b : ℕ) (xs : List ℕ) → member b (retain_ne a xs) ≡ (if a == b then false else member b xs)
member-retain_ne a b [] = ground arith
member-retain_ne a b (x ∷ xs) = ground (arith, member-retain_ne a b xs)

pub retain_ne-Once : (a : ℕ) (xs : List ℕ) → Once xs → Once (retain_ne a xs)
retain_ne-Once a [] o = tt
retain_ne-Once a (x ∷ xs) o = ground (arith, member-retain_ne a x xs, retain_ne-Once a xs o.1)
