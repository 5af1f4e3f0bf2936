-- ===== src/Prelude/Results.antt =====
-- Rust's `Result`, and methods with `&mut self`: functions of the state that return the state they
-- leave beside the result, so that what an early return leaves behind is part of the model.
use mathlib.Core.Path.{◌≡◌, refl}
use mathlib.Core.Logic.{◌⊎◌, inl, inr}
use mathlib.Core.Bool.{Bool, true, false}
use mathlib.Core.Option.{Option, none, some}

pub data Result (E A : Type 0) : Type 0 where
  ok : A → Result E A
  err : E → Result E A

abbrev pub is_ok : {E A : Type 0} → Result E A → Bool
is_ok (ok a) = true
is_ok (err e) = false

abbrev pub ok_or : {E A : Type 0} → Option A → E → Result E A
ok_or none e = err e
ok_or (some a) e = ok a

pub Result-cases :
    {E A : Type 0} (r : Result E A) → ((e : E) × (r ≡ err e)) ⊎ ((a : A) × (r ≡ ok a))
Result-cases (ok a) = inr (a, refl)
Result-cases (err e) = inl (e, refl)

abbrev pub unwrap_or : {A : Type 0} → Option A → A → A
unwrap_or none a = a
unwrap_or (some b) a = b

-- The `?` operator of a function with no state.
abbrev pub and_then : {E A B : Type 0} → Result E A → (A → Result E B) → Result E B
and_then (ok a) f = f a
and_then (err e) f = err e

-- `a?; b` for a check `a`.
infixr 4 ◌also◌
abbrev pub ◌also◌ : {E A : Type 0} → Result E (Unit {0}) → Result E A → Result E A
ok _ also b = b
err e also b = err e

-- A method: the state before to the state after and the result.
abbrev pub Method : Type 0 → Type 0 → Type 0 → Type 0
Method S E A = S → S × Result E A

abbrev pub resume : {S E A B : Type 0} → (A → Method S E B) → S → Result E A → S × Result E B
resume f s (ok a) = f a s
resume f s (err e) = (s, err e)

infixl 5 ◌>>=◌ ◌>>◌
abbrev pub ◌>>=◌ : {S E A B : Type 0} → Method S E A → (A → Method S E B) → Method S E B
◌>>=◌ m f s = resume f (m s).0 (m s).1

abbrev pub ◌>>◌ : {S E B : Type 0} → Method S E (Unit {0}) → Method S E B → Method S E B
◌>>◌ m k s = resume (λ _. k) (m s).0 (m s).1

abbrev pub return : {S E A : Type 0} → A → Method S E A
return a s = (s, ok a)

abbrev pub get : {S E : Type 0} → Method S E S
get s = (s, ok s)

abbrev pub put : {S E : Type 0} → S → Method S E (Unit {0})
put t s = (t, ok tt)

-- An assignment to fields of the state.
abbrev pub modify : {S E : Type 0} → (S → S) → Method S E (Unit {0})
modify f s = (f s, ok tt)

-- `e?` for a result that does not touch the state.
abbrev pub lift : {S E A : Type 0} → Result E A → Method S E A
lift r s = (s, r)

-- `if b { return Err(e); }`
abbrev pub fail_if : {S E : Type 0} → Bool → E → Method S E (Unit {0})
fail_if true e s = (s, err e)
fail_if false e s = (s, ok tt)
