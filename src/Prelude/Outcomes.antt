-- ===== src/Prelude/Outcomes.antt =====
-- What is known of a method's steps when it succeeded.
use mathlib.Core.Path.{◌≡◌, refl, ap}
use mathlib.Core.Bool.{Bool, true, false}
use vpn_ne_vpn.Prelude.Results.{Result, ok, err, Method}
use vpn_ne_vpn.Prelude.Keeps.{◌>>=◌, ◌>>◌, get, modify, lift, check, fail_if, resume}

module _ {S E B : Type 0} {b : B} {s t : S} where
  pub ran_get : (f : S → Method S E B) → (get >>= f) s ≡ (t, ok b) → f s s ≡ (t, ok b)
  unfolding get ◌>>=◌
  ran_get f h = h

  pub ran_modify :
      (f : S → S) (k : Method S E B) → (modify f >> k) s ≡ (t, ok b) → k (f s) ≡ (t, ok b)
  unfolding modify ◌>>◌
  ran_modify f k h = h

  ran_result :
      (r : Result E (Unit {0})) (k : Method S E B)
      → resume (λ _. k) s r ≡ (t, ok b)
      → (r ≡ ok tt) × (k s ≡ (t, ok b))
  ran_result (ok _) k h = (refl, h)
  ran_result (err e) k h = absurd (cc (ap (λ x. x.1) h))

  pub ran_require :
      (r : Result E (Unit {0})) (k : Method S E B)
      → (lift r >> k) s ≡ (t, ok b)
      → (r ≡ ok tt) × (k s ≡ (t, ok b))
  unfolding lift ◌>>◌
  ran_require r k h = ran_result r k h

  pub ran_check :
      (c : S → Result E (Unit {0})) (k : Method S E B)
      → (check c >> k) s ≡ (t, ok b)
      → (c s ≡ ok tt) × (k s ≡ (t, ok b))
  unfolding check ◌>>◌
  ran_check c k h = ran_result (c s) k h

  pub ran_lift :
      {A : Type 0} (r : Result E A) (f : A → Method S E B)
      → (lift r >>= f) s ≡ (t, ok b)
      → (a : A) × ((r ≡ ok a) × (f a s ≡ (t, ok b)))
  unfolding lift ◌>>=◌
  ran_lift (ok a) f h = (a, (refl, h))
  ran_lift (err e) f h = absurd (cc (ap (λ x. x.1) h))

  pub ran_unless :
      (c : Bool) (e : E) (k : Method S E B)
      → (fail_if c e >> k) s ≡ (t, ok b)
      → (c ≡ false) × (k s ≡ (t, ok b))
  unfolding fail_if ◌>>◌
  ran_unless true e k h = absurd (cc (ap (λ x. x.1) h))
  ran_unless false e k h = (refl, h)
