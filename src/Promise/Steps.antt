-- ===== src/Promise/Steps.antt =====
-- What the steps of an async function did, when it returned.
use io_react_native_wallet_i.Base.{◌≡◌, refl, ap}
use io_react_native_wallet_i.Errors.Result.{Result, ok, err}
use io_react_native_wallet_i.Promise.{World, Async, ◌>>=◌, lift}

module _ {A B : Type 0} where
  -- The first step returned, and the rest ran on what it left.
  pub >>=-eq-returned :
      (m : Async A) (k : A → Async B) (w : World) {b : B} {w'' : World}
      → (m >>= k) w ≡ (ok b, w'')
      → (a : A) × (w' : World) × (m w ≡ (ok a, w')) × (k a w' ≡ (ok b, w''))
  >>=-eq-returned m k w {b} {w''} h = after (m w) refl h
    where
      after :
          (p : Result A × World)
          → m w ≡ p
          → ◌≡◌ {A = Result B × World}
              (elim p.0 [ ok a ↦ k a p.1 | err e ↦ (err e, p.1) ])
              (ok b, w'')
          → (a : A) × (w' : World) × (m w ≡ (ok a, w')) × (k a w' ≡ (ok b, w''))
      after (ok a, w') e h = (a, w', e, h)
      after (err x, w') e h = cc

  -- A step that only returns or throws, a request and a draw, once they are unfolded.
  pub step :
      (r : Result A) (k : A → Result B × World) (w : World) {b : B} {w'' : World}
      → ◌≡◌ {A = Result B × World} (elim r [ ok a ↦ k a | err e ↦ (err e, w) ]) (ok b, w'')
      → (a : A) × (r ≡ ok a) × (k a ≡ (ok b, w''))
  step (ok a) k w h = (a, refl, h)
  step (err e) k w h = cc

pub lift-eq :
    {B : Type 0} (r : Result B) (w : World) {b : B} {w' : World}
    → lift r w ≡ (ok b, w')
    → (r ≡ ok b) × (w ≡ w')
lift-eq r w h = (ap (λ p. p.0) h, ap (λ p. p.1) h)
