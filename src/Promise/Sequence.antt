-- ===== src/Promise/Sequence.antt =====
-- The steps of a long async function, kept shut: what a run that returned did is read off step by
-- step.
use io_react_native_wallet_i.Base.{◌≡◌}
use io_react_native_wallet_i.Errors.Result.{ok}
use io_react_native_wallet_i.Promise
use io_react_native_wallet_i.Promise.{World, Async}
use io_react_native_wallet_i.Promise.Steps

infixl 5 ◌>>=◌
unfoldable pub ◌>>=◌ : {A B : Type 0} → Async A → (A → Async B) → Async B
m >>= k = Promise.◌>>=◌ m k

pub >>=-returned :
    {A B : Type 0} (m : Async A) (k : A → Async B) (w : World) {b : B} {w'' : World}
    → (m >>= k) w ≡ (ok b, w'')
    → (a : A) × (w' : World) × (m w ≡ (ok a, w')) × (k a w' ≡ (ok b, w''))
unfolding ◌>>=◌
>>=-returned m k w h = Steps.>>=-eq-returned m k w h
