-- ===== src/Prelude/Checks.antt =====
-- What is known of a chain of checks when it succeeded, and when it does.
use mathlib.Core.Path.{◌≡◌, refl, ap}
use mathlib.Core.Bool.{Bool, true, false, not}
use vpn_ne_vpn.Prelude.Tests.{if◌then◌else◌}
use vpn_ne_vpn.Prelude.Results.{Result, ok, err, and_then, ok_or, ◌also◌}
use mathlib.Core.Option.{Option, none, some}

pub also_continues :
    {E A : Type 0} {a : Result E (Unit {0})} (b : Result E A) → a ≡ ok tt → (a also b) ≡ b
also_continues b p = rw p

module _ {E A : Type 0} {x : A} where
  pub also_passes :
      {a : Result E (Unit {0})} {b : Result E A} → a ≡ ok tt → b ≡ ok x → (a also b) ≡ ok x
  also_passes p q = rw (p, q)

  pub also_passed :
      (a : Result E (Unit {0})) (b : Result E A) → (a also b) ≡ ok x → (a ≡ ok tt) × (b ≡ ok x)
  also_passed (ok _) b h = (refl, h)
  also_passed (err e) b h = absurd (cc h)

  pub then_passes :
      {B : Type 0} {r : Result E B} {b : B} (f : B → Result E A)
      → r ≡ ok b
      → f b ≡ ok x
      → and_then r f ≡ ok x
  then_passes f p q = rw (p, q)

  pub then_passed :
      {B : Type 0} (r : Result E B) (f : B → Result E A)
      → and_then r f ≡ ok x
      → (b : B) × ((r ≡ ok b) × (f b ≡ ok x))
  then_passed (ok b) f h = (b, (refl, h))
  then_passed (err e) f h = absurd (cc h)

  -- The same for what follows from the two parts.
  pub then_passed_in :
      {B P : Type 0} (r : Result E B) (f : B → Result E A)
      → and_then r f ≡ ok x
      → ((b : B) → r ≡ ok b → f b ≡ ok x → P)
      → P
  then_passed_in (ok b) f h k = k b refl h
  then_passed_in (err e) f h k = absurd (cc h)

-- A check `if c { return Err(e) }`.
pub unless_passes :
    {E : Type 0} (e : E) {c : Bool} → c ≡ false → (if c then err e else ok tt) ≡ ok tt
unless_passes e h = rw h

pub unless_passed :
    {E : Type 0} (e : E) (c : Bool) → (if c then err e else ok tt) ≡ ok tt → c ≡ false
unless_passed e true h = absurd (cc h)
unless_passed e false h = refl

-- The check and what comes after it.
pub guard_passed :
    {E A : Type 0} {x : A} (c : Bool) (e : E) (b : Result E A)
    → ((if c then err e else ok tt) also b) ≡ ok x
    → (c ≡ false) × (b ≡ ok x)
guard_passed true e b h = absurd (cc h)
guard_passed false e b h = (refl, h)

pub not-not : (b : Bool) → not b ≡ false → b ≡ true
not-not true h = refl
not-not false h = absurd (cc h)

pub require_passed :
    {E A : Type 0} {x : A} (c : Bool) (e : E) (b : Result E A)
    → ((if not c then err e else ok tt) also b) ≡ ok x
    → (c ≡ true) × (b ≡ ok x)
require_passed c e b h = let (p, q) = guard_passed (not c) e b h in (not-not c p, q)

abbrev unwrap : {E A : Type 0} → A → Result E A → A
unwrap x (ok a) = a
unwrap x (err e) = x

abbrev value_of : {E A : Type 0} → Result E A → Option A
value_of (ok a) = some a
value_of (err e) = none

pub ok_or-some : {E A : Type 0} {x : A} (o : Option A) (e : E) → ok_or o e ≡ ok x → o ≡ some x
ok_or-some none e h = absurd (cc h)
ok_or-some (some a) e h = ap value_of h

pub ok-injective : {E A : Type 0} (x y : A) → ◌≡◌ {A = Result E A} (ok x) (ok y) → x ≡ y
ok-injective x y h = ap (unwrap x) h
