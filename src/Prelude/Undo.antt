-- ===== src/Prelude/Undo.antt =====
-- Methods that leave the state as it was when they fail, put together step by step.
use mathlib.Core.Path.{◌≡◌, refl}
use mathlib.Core.Bool.{Bool, true, false}
use vpn_ne_vpn.Prelude.Results.{Result, ok, err, Method}
use vpn_ne_vpn.Prelude.Keeps.{◌>>=◌, ◌>>◌, get, modify, lift, check, fail_if, resume}

abbrev pub Undoes : {S E A : Type 0} → Method S E A → S → Type 0
Undoes {E = E} m s = (e : E) → (m s).1 ≡ err e → (m s).0 ≡ s

-- From this state the method succeeds.
abbrev pub Succeeds : {S E A : Type 0} → Method S E A → S → Type 0
Succeeds {E = E} {A = A} m s = (a : A) × ((m s).1 ≡ ok a)

module _ {S E : Type 0} where
  pub undo_lift : {A : Type 0} (r : Result E A) (s : S) → Undoes (lift r) s
  unfolding lift
  undo_lift r s e h = refl

  pub undo_modify : (f : S → S) (s : S) → Undoes (modify {E = E} f) s
  unfolding modify
  undo_modify f s e h = cc h

  pub undo_success : {A : Type 0} (m : Method S E A) (s : S) → Succeeds m s → Undoes m s
  undo_success m s r e h = absurd (cc (r.1, h))

  pub undo_get : {B : Type 0} (f : S → Method S E B) (s : S) → Undoes (f s) s → Undoes (get >>= f) s
  unfolding get ◌>>=◌
  undo_get f s h = h

  undo_result :
      {B : Type 0} (k : Method S E B) (s : S) (r : Result E (Unit {0}))
      → (r ≡ ok tt → Undoes k s)
      → Undoes (λ t. resume (λ _. k) t r) s
  undo_result k s (ok _) h = h refl
  undo_result k s (err e) h = λ x l. refl

  pub undo_check :
      {B : Type 0} (c : S → Result E (Unit {0})) (k : Method S E B) (s : S)
      → (c s ≡ ok tt → Undoes k s)
      → Undoes (check c >> k) s
  unfolding check ◌>>◌
  undo_check c k s h = undo_result k s (c s) h

  pub undo_require :
      {B : Type 0} (r : Result E (Unit {0})) (k : Method S E B) (s : S)
      → Undoes k s
      → Undoes (lift r >> k) s
  unfolding lift ◌>>◌
  undo_require r k s h = undo_result k s r (λ _. h)

  pub undo_fail_if :
      {B : Type 0} (b : Bool) (e : E) (k : Method S E B) (s : S)
      → Undoes k s
      → Undoes (fail_if b e >> k) s
  unfolding fail_if ◌>>◌
  undo_fail_if true e k s h = λ x l. refl
  undo_fail_if false e k s h = h

  pub undo_bind :
      {A B : Type 0} (r : Result E A) (f : A → Method S E B) (s : S)
      → ((a : A) → Undoes (f a) s)
      → Undoes (lift r >>= f) s
  unfolding lift ◌>>=◌
  undo_bind (ok a) f s h = h a
  undo_bind (err e) f s h = λ x l. refl

  succeeded :
      {B : Type 0} (k : Method S E B) (s t : S) (r : Result E (Unit {0}))
      → ((e : E) → r ≡ err e → t ≡ s)
      → (r ≡ ok tt → Succeeds k t)
      → (e : E) → (resume (λ _. k) t r).1 ≡ err e
      → (resume (λ _. k) t r).0 ≡ s
  succeeded k s t (ok _) h l e x = absurd (cc ((l refl).1, x))
  succeeded k s t (err d) h l e x = h d refl

  -- A step that may fail, before what then succeeds.
  pub undo_then :
      {B : Type 0} (m : Method S E (Unit {0})) (k : Method S E B) (s : S)
      → Undoes m s
      → ((m s).1 ≡ ok tt → Succeeds k (m s).0)
      → Undoes (m >> k) s
  unfolding ◌>>◌
  undo_then m k s h l = succeeded k s (m s).0 (m s).1 h l

  resume-Succeeds :
      {B : Type 0} (k : Method S E B) (t : S) (r : Result E (Unit {0}))
      → r ≡ ok tt
      → Succeeds k t
      → (b : B) × ((resume (λ _. k) t r).1 ≡ ok b)
  resume-Succeeds k t (ok _) h l = l
  resume-Succeeds k t (err e) h l = absurd (cc h)

  pub then-Succeeds :
      {B : Type 0} (m : Method S E (Unit {0})) (k : Method S E B) (s : S)
      → (m s).1 ≡ ok tt
      → Succeeds k (m s).0
      → Succeeds (m >> k) s
  unfolding ◌>>◌
  then-Succeeds m k s h l = resume-Succeeds k (m s).0 (m s).1 h l
