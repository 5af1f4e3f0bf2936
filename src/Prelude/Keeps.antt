-- ===== src/Prelude/Keeps.antt =====
-- Methods put together from closed steps, which stay shut until a proof unfolds them, and methods that
-- move the state along a preorder, whatever they return.
use mathlib.Core.Path.{◌≡◌, refl}
use mathlib.Core.Bool.{Bool, true, false}
use vpn_ne_vpn.Prelude.Tests.{if◌then◌else◌}
use vpn_ne_vpn.Prelude.Results.{Result, ok, err, Method}

abbrev pub resume : {S E A B : Type 0} → (A → Method S E B) → S → Result E A → S × Result E B
resume f s (ok a) = f a s
resume f s (err e) = (s, err e)

infixl 5 ◌>>=◌ ◌>>◌
unfoldable pub ◌>>=◌ : {S E A B : Type 0} → Method S E A → (A → Method S E B) → Method S E B
◌>>=◌ m f s = resume f (m s).0 (m s).1

unfoldable pub ◌>>◌ : {S E B : Type 0} → Method S E (Unit {0}) → Method S E B → Method S E B
◌>>◌ m k s = resume (λ _. k) (m s).0 (m s).1

unfoldable pub return : {S E A : Type 0} → A → Method S E A
return a s = (s, ok a)

unfoldable pub get : {S E : Type 0} → Method S E S
get s = (s, ok s)

unfoldable pub modify : {S E : Type 0} → (S → S) → Method S E (Unit {0})
modify f s = (f s, ok tt)

unfoldable pub lift : {S E A : Type 0} → Result E A → Method S E A
lift r s = (s, r)

-- A check of the state: `self.require_...()?`
unfoldable pub check : {S E : Type 0} → (S → Result E (Unit {0})) → Method S E (Unit {0})
check c s = (s, c s)

unfoldable pub fail_if : {S E : Type 0} → Bool → E → Method S E (Unit {0})
fail_if true e s = (s, err e)
fail_if false e s = (s, ok tt)

pub record Preorder (S : Type 0) : Type 1 where
  pub Rel : S → S → Type 0
  pub stays : (s : S) → Rel s s
  pub joins : (s t u : S) → Rel s t → Rel t u → Rel s u

pub record Keeps {S E A : Type 0} (p : Preorder S) (m : Method S E A) : Type 0 where
  pub moves : (s : S) → p.Rel s (m s).0

module _ {S E : Type 0} (p : Preorder S) where
  resume-Keeps :
      {A B : Type 0} (f : A → Method S E B) (s t : S) (r : Result E A)
      → p.Rel s t
      → ((a : A) → Keeps p (f a))
      → p.Rel s (resume f t r).0
  resume-Keeps f s t (ok a) h k = p.joins s t (f a t).0 h ((k a).moves t)
  resume-Keeps f s t (err e) h k = h

  pub bind-Keeps :
      {A B : Type 0} (m : Method S E A) (f : A → Method S E B)
      → Keeps p m
      → ((a : A) → Keeps p (f a))
      → Keeps p (m >>= f)
  unfolding ◌>>=◌
  bind-Keeps m f h k = record { moves = λ s. resume-Keeps f s (m s).0 (m s).1 (h.moves s) k }

  pub then-Keeps :
      {B : Type 0} (m : Method S E (Unit {0})) (k : Method S E B)
      → Keeps p m
      → Keeps p k
      → Keeps p (m >> k)
  unfolding ◌>>◌
  then-Keeps m k h l = record {
    moves = λ s. resume-Keeps (λ _. k) s (m s).0 (m s).1 (h.moves s) (λ _. l);
  }

  pub lift-Keeps : {A : Type 0} (r : Result E A) → Keeps p (lift {S = S} r)
  unfolding lift
  lift-Keeps r = record { moves = λ s. p.stays s }

  pub return-Keeps : {A : Type 0} (a : A) → Keeps p (return {S = S} {E = E} a)
  unfolding return
  return-Keeps a = record { moves = λ s. p.stays s }

  pub get-Keeps : Keeps p (get {S = S} {E = E})
  unfolding get
  get-Keeps = record { moves = λ s. p.stays s }

  pub check-Keeps : (c : S → Result E (Unit {0})) → Keeps p (check c)
  unfolding check
  check-Keeps c = record { moves = λ s. p.stays s }

  pub modify-Keeps : (f : S → S) → ((s : S) → p.Rel s (f s)) → Keeps p (modify {E = E} f)
  unfolding modify
  modify-Keeps f h = record { moves = h }

  pub fail_if-Keeps : (b : Bool) (e : E) → Keeps p (fail_if {S = S} b e)
  unfolding fail_if
  fail_if-Keeps true e = record { moves = λ s. p.stays s }
  fail_if-Keeps false e = record { moves = λ s. p.stays s }

  checked_moves :
      {B : Type 0} (k : Method S E B) (s : S) (r : Result E (Unit {0}))
      → (r ≡ ok tt → p.Rel s (k s).0)
      → p.Rel s (resume (λ _. k) s r).0
  checked_moves k s (ok _) h = h refl
  checked_moves k s (err e) h = p.stays s

  resume_moves :
      {B : Type 0} (k : Method S E B) (s t : S) (r : Result E (Unit {0}))
      → p.Rel s t
      → p.Rel s (k t).0
      → p.Rel s (resume (λ _. k) t r).0
  resume_moves k s t (ok _) h l = l
  resume_moves k s t (err e) h l = h

  -- The same from one state, where what the step found out is at hand.
  pub moves_get :
      {B : Type 0} (f : S → Method S E B) (s : S) → p.Rel s (f s s).0 → p.Rel s ((get >>= f) s).0
  unfolding get ◌>>=◌
  moves_get f s h = h

  pub moves_check :
      {B : Type 0} (c : S → Result E (Unit {0})) (k : Method S E B) (s : S)
      → (c s ≡ ok tt → p.Rel s (k s).0)
      → p.Rel s ((check c >> k) s).0
  unfolding check ◌>>◌
  moves_check c k s h = checked_moves k s (c s) h

  pub moves_require :
      {B : Type 0} (r : Result E (Unit {0})) (k : Method S E B) (s : S)
      → p.Rel s (k s).0
      → p.Rel s ((lift r >> k) s).0
  unfolding lift ◌>>◌
  moves_require r k s h = checked_moves k s r (λ _. h)

  pub moves_fail_if :
      {B : Type 0} (b : Bool) (e : E) (k : Method S E B) (s : S)
      → p.Rel s (k s).0
      → p.Rel s ((fail_if b e >> k) s).0
  unfolding fail_if ◌>>◌
  moves_fail_if true e k s h = p.stays s
  moves_fail_if false e k s h = h

  pub moves_unless :
      {B : Type 0} (b : Bool) (e : E) (k : Method S E B) (s : S)
      → (b ≡ false → p.Rel s (k s).0)
      → p.Rel s ((fail_if b e >> k) s).0
  unfolding fail_if ◌>>◌
  moves_unless true e k s h = p.stays s
  moves_unless false e k s h = h refl

  pub moves_lift :
      {A B : Type 0} (r : Result E A) (f : A → Method S E B) (s : S)
      → ((a : A) → r ≡ ok a → p.Rel s (f a s).0)
      → p.Rel s ((lift r >>= f) s).0
  unfolding lift ◌>>=◌
  moves_lift (ok a) f s h = h a refl
  moves_lift (err e) f s h = p.stays s

  pub moves_modify :
      {B : Type 0} (f : S → S) (k : Method S E B) (s : S)
      → p.Rel s (f s)
      → Keeps p k
      → p.Rel s ((modify f >> k) s).0
  unfolding modify ◌>>◌
  moves_modify f k s h l = p.joins s (f s) (k (f s)).0 h (l.moves (f s))

  pub moves_then :
      {B : Type 0} (m : Method S E (Unit {0})) (k : Method S E B) (s : S)
      → p.Rel s (m s).0
      → p.Rel s (k (m s).0).0
      → p.Rel s ((m >> k) s).0
  unfolding ◌>>◌
  moves_then m k s h l = resume_moves k s (m s).0 (m s).1 h l

  pub moves_if :
      {B : Type 0} (b : Bool) (s : S) (x y : S × Result E B)
      → p.Rel s x.0
      → p.Rel s y.0
      → p.Rel s (if b then x else y).0
  moves_if true s x y h l = h
  moves_if false s x y h l = l
