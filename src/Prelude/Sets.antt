-- ===== src/Prelude/Sets.antt =====
-- `BTreeSet` and `HashSet` as lists of their members, compared through an instance.
use mathlib.Core.Path.{◌≡◌, refl}
use mathlib.Core.Bool.{Bool, true, false, ◌||◌, not}
use mathlib.Core.List.{List, [], ◌∷◌}
use native.Mathlib.Omega.{arith}
use vpn_ne_vpn.Prelude.Tests.{if◌then◌else◌}
use vpn_ne_vpn.Prelude.Lists.{length, any}
use vpn_ne_vpn.Prelude.Maps.{Eq}

module _ {A : Type 0} ⦃e : Eq A⦄ where
  abbrev pub contains : List A → A → Bool
  contains [] a = false
  contains (x ∷ xs) a = e.beq x a || contains xs a

  -- `insert`, whose answer is `not (contains xs a)`.
  abbrev pub add : A → List A → List A
  add a xs = if contains xs a then xs else a ∷ xs

  -- `remove`, whose answer is `contains xs a`.
  abbrev pub discard : A → List A → List A
  discard a [] = []
  discard a (x ∷ xs) = let rest = discard a xs in if e.beq x a then rest else x ∷ rest

  -- `collect` into a set.
  abbrev pub collect : List A → List A
  collect [] = []
  collect (x ∷ xs) = add x (collect xs)

  -- No member stands twice.
  abbrev pub AreDistinct : List A → Type 0
  AreDistinct [] = Unit {0}
  AreDistinct (x ∷ xs) = (contains xs x ≡ false) × AreDistinct xs

  pub contains-collect : (xs : List A) (a : A) → contains (collect xs) a ≡ contains xs a
  contains-collect [] a = refl
  contains-collect (x ∷ xs) a =
      ground (arith, contains-collect xs a, contains-collect xs x, e.beq_iff x a)

  pub collect_distinct : (xs : List A) → AreDistinct xs → length (collect xs) ≡ length xs
  collect_distinct [] d = refl
  collect_distinct (x ∷ xs) d = ground (arith, contains-collect xs x, collect_distinct xs d.1)

  -- What the test `any(|a| !set.contains(a))` refuses.
  pub contains_all :
      (set xs : List A) (a : A)
      → any (λ x. not (contains set x)) xs ≡ false
      → contains xs a ≡ true
      → contains set a ≡ true
  contains_all set [] a h m = cc m
  contains_all set (x ∷ xs) a h m = ground (arith, h, m, contains_all set xs a, e.beq_iff x a)
