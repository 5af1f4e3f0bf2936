-- ===== src/Prelude/Maps.antt =====
-- The library maps `BTreeMap` and `HashMap` as association lists: a new key goes to the end, an old
-- key keeps its place. Keys are compared through an instance. A map whose new keys come in ascending
-- order is in the order of a `BTreeMap`.
use Prim.Native.Nat.{ℕ, suc, ◌+◌, ◌≤◌}
use Prim.Native.String.{String}
use mathlib.Core.Path.{◌≡◌, refl}
use mathlib.Core.Logic.{◌↔◌}
use mathlib.Core.Bool.{Bool, true, false}
use mathlib.Core.Option.{Option, none, some}
use mathlib.Core.List.{List, [], ◌∷◌}
use native.Mathlib.Omega.{arith}
use text.Mathlib.Text.{◌==◌ as str_eq}
use text.Mathlib.TextEquality.{eq_iff}
use vpn_ne_vpn.Prelude.Tests.{◌==◌, ==_iff, if◌then◌else◌}
use vpn_ne_vpn.Prelude.Lists.{length}

pub record Eq (A : Type 0) : Type 0 where
  pub beq : A → A → Bool
  pub beq_iff : (a b : A) → (beq a b ≡ true) ↔ (a ≡ b)

instance abbrev pub nat_eq : Eq ℕ
nat_eq = record { beq = λ a b. a == b; beq_iff = ==_iff }

instance abbrev pub string_eq : Eq String
string_eq = record { beq = λ a b. str_eq a b; beq_iff = eq_iff }

abbrev pub Map : Type 0 → Type 0 → Type 0
Map K V = List (K × V)

abbrev pub is_some : {A : Type 0} → Option A → Bool
is_some none = false
is_some (some a) = true

-- The weight of what a key may hold.
abbrev pub weight : {A : Type 0} → (A → ℕ) → Option A → ℕ
weight w none = 0
weight w (some a) = w a

module _ {K : Type 0} ⦃e : Eq K⦄ {V : Type 0} where
  abbrev pub lookup : K → Map K V → Option V
  lookup k [] = none
  lookup k ((j, v) ∷ m) = if e.beq j k then some v else lookup k m

  abbrev pub contains_key : K → Map K V → Bool
  contains_key k m = is_some (lookup k m)

  abbrev pub insert : K → V → Map K V → Map K V
  insert k v [] = (k, v) ∷ []
  insert k v ((j, w) ∷ m) = if e.beq j k then (j, v) ∷ m else (j, w) ∷ insert k v m

  abbrev pub remove : K → Map K V → Map K V
  remove k [] = []
  remove k ((j, v) ∷ m) = let rest = remove k m in if e.beq j k then rest else (j, v) ∷ rest

  pub lookup-insert :
      (k j : K) (v : V) (m : Map K V)
      → lookup j (insert k v m) ≡ (if e.beq k j then some v else lookup j m)
  lookup-insert k j v [] = refl
  lookup-insert k j v ((i, w) ∷ m) =
      ground (arith, e.beq_iff k j, e.beq_iff i k, e.beq_iff i j, lookup-insert k j v m)

  pub lookup-remove :
      (k j : K) (m : Map K V) → lookup j (remove k m) ≡ (if e.beq k j then none else lookup j m)
  lookup-remove k j [] = ground arith
  lookup-remove k j ((i, w) ∷ m) =
      ground (arith, e.beq_iff k j, e.beq_iff i k, e.beq_iff i j, lookup-remove k j m)

  pub length-insert :
      (k : K) (v : V) (m : Map K V)
      → length (insert k v m) ≡ (if contains_key k m then length m else suc (length m))
  length-insert k v [] = refl
  length-insert k v ((i, w) ∷ m) = ground (arith, length-insert k v m)

  pub length-remove-le : (k : K) (m : Map K V) → length (remove k m) ≤ length m
  length-remove-le k [] = omega arith
  length-remove-le k ((i, w) ∷ m) = ground (arith, length-remove-le k m)

  -- Every entry has the property.
  abbrev pub Entries : (K → V → Type 0) → Map K V → Type 0
  Entries P [] = Unit {0}
  Entries P ((k, v) ∷ m) = P k v × Entries P m

  pub lookup-Entries :
      (P : K → V → Type 0) (k : K) (v : V) (m : Map K V) → Entries P m → lookup k m ≡ some v → P k v
  lookup-Entries P k v [] h l = absurd (ground arith)
  lookup-Entries P k v ((i, w) ∷ m) h l = ground (arith, e.beq_iff i k, lookup-Entries P k v m h.1)

  pub insert-Entries :
      (P : K → V → Type 0) (k : K) (v : V) (m : Map K V)
      → Entries P m
      → P k v
      → Entries P (insert k v m)
  insert-Entries P k v [] h p = (p, tt)
  insert-Entries P k v ((i, w) ∷ m) h p =
      ground (arith, e.beq_iff i k, insert-Entries P k v m h.1 p)

  pub remove-Entries :
      (P : K → V → Type 0) (k : K) (m : Map K V) → Entries P m → Entries P (remove k m)
  remove-Entries P k [] h = tt
  remove-Entries P k ((i, w) ∷ m) h = ground (arith, remove-Entries P k m h.1)

  -- No key stands twice.
  abbrev pub Distinct : Map K V → Type 0
  Distinct [] = Unit {0}
  Distinct ((k, v) ∷ m) = (lookup k m ≡ none) × Distinct m

  pub insert-Distinct : (k : K) (v : V) (m : Map K V) → Distinct m → Distinct (insert k v m)
  insert-Distinct k v [] h = (refl, tt)
  insert-Distinct k v ((i, w) ∷ m) h =
      ground (arith, e.beq_iff i k, e.beq_iff k i, lookup-insert k i v m, insert-Distinct k v m h.1)

  pub remove-Distinct : (k : K) (m : Map K V) → Distinct m → Distinct (remove k m)
  remove-Distinct k [] h = tt
  remove-Distinct k ((i, w) ∷ m) h =
      ground (arith, e.beq_iff k i, lookup-remove k i m, remove-Distinct k m h.1)

  -- The sum of the weights of the values.
  abbrev pub total : (V → ℕ) → Map K V → ℕ
  total f [] = 0
  total f ((k, v) ∷ m) = f v + total f m

  pub total-insert :
      (f : V → ℕ) (k : K) (v : V) (m : Map K V)
      → total f (insert k v m) + weight f (lookup k m) ≡ total f m + f v
  total-insert f k v [] = omega arith
  total-insert f k v ((i, w) ∷ m) = ground (arith, total-insert f k v m)

  remove-absent : (k : K) (m : Map K V) → lookup k m ≡ none → remove k m ≡ m
  remove-absent k [] h = refl
  remove-absent k ((i, w) ∷ m) h = ground (arith, remove-absent k m)

  pub total-remove :
      (f : V → ℕ) (k : K) (m : Map K V)
      → Distinct m
      → total f (remove k m) + weight f (lookup k m) ≡ total f m
  total-remove f k [] h = omega arith
  total-remove f k ((i, w) ∷ m) h =
      ground (arith, e.beq_iff i k, remove-absent k m, total-remove f k m h.1)
