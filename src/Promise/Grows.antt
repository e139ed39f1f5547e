-- ===== src/Promise/Grows.antt =====
-- An async function only adds to the requests sent and the calls on the key store, and never gives back
-- a draw.
use io_react_native_wallet_i.Base.{
  ◌≡◌, refl, sym, ap, ◌∙◌, ◌≤◌, List, [], ◌∷◌, ◌++◌, ℕ, String, arith,
}
use io_react_native_wallet_i.Host.{Host, Request, generate, delete}
use io_react_native_wallet_i.Errors.{Error}
use io_react_native_wallet_i.Errors.Result.{Result, ok, err}
use io_react_native_wallet_i.Promise.{
  World, Async, ◌>>=◌, lift, pure, catch_with, send, draw_uuid, draw_below, generate_key,
  delete_key,
}
use io_react_native_wallet_i.Promise.Sequence

-- The second list is the first one with more in front.
abbrev pub IsLonger : {A : Type 0} → List A → List A → Type 0
IsLonger {A} xs ys = (more : List A) × (ys ≡ more ++ xs)

pub record IsGrown (w w' : World) : Type 0 where
  pub sent : IsLonger w.sent w'.sent
  pub key_calls : IsLonger w.key_calls w'.key_calls
  pub drawn : w.drawn ≤ w'.drawn

-- Whatever the function comes to.
unfoldable pub Grows : {A : Type 0} → Async A → Type 0
Grows m = (w : World) → IsGrown w (m w).1

append_assoc : {A : Type 0} (xs ys zs : List A) → (xs ++ ys) ++ zs ≡ xs ++ (ys ++ zs)
append_assoc [] ys zs = refl
append_assoc (x ∷ xs) ys zs = ap (λ l. x ∷ l) (append_assoc xs ys zs)

IsLonger-trans : {A : Type 0} {xs ys zs : List A} → IsLonger xs ys → IsLonger ys zs → IsLonger xs zs
IsLonger-trans {xs = xs} (m, e) (n, f) =
    (n ++ m, f ∙ ap (λ l. n ++ l) e ∙ sym (append_assoc n m xs))

pub IsGrown-refl : (w : World) → IsGrown w w
IsGrown-refl w = record { sent = ([], refl); key_calls = ([], refl); drawn = omega arith }

pub IsGrown-trans : {u v w : World} → IsGrown u v → IsGrown v w → IsGrown u w
IsGrown-trans a b = record {
  sent = IsLonger-trans a.sent b.sent;
  key_calls = IsLonger-trans a.key_calls b.key_calls;
  drawn = omega (arith, a.drawn, b.drawn);
}

pub >>=-Grows :
    {A B : Type 0} (m : Async A) (k : A → Async B)
    → Grows m
    → ((a : A) → Grows (k a))
    → Grows (m >>= k)
unfolding Grows
>>=-Grows {A} {B} m k hm hk w = IsGrown-trans (hm w) (after (m w))
  where
    after :
        (p : Result A × World)
        → IsGrown p.1
            (elim p.0 as (λ _. Result B × World) [ ok a ↦ k a p.1 | err e ↦ (err e, p.1) ]).1
    after (ok a, w') = hk a w'
    after (err e, w') = IsGrown-refl w'

pub sequence-Grows :
    {A B : Type 0} (m : Async A) (k : A → Async B)
    → Grows m
    → ((a : A) → Grows (k a))
    → Grows (Sequence.◌>>=◌ m k)
unfolding Sequence.◌>>=◌
sequence-Grows m k hm hk = >>=-Grows m k hm hk

pub lift-Grows : {A : Type 0} (r : Result A) → Grows (lift r)
unfolding Grows
lift-Grows r w = IsGrown-refl w

pub pure-Grows : {A : Type 0} (a : A) → Grows (pure a)
unfolding Grows
pure-Grows a w = IsGrown-refl w

pub catch_with-Grows :
    {A : Type 0} (f : Error → Error) (m : Async A) → Grows m → Grows (catch_with f m)
unfolding Grows
catch_with-Grows {A} f m hm w = IsGrown-trans (hm w) (after (m w))
  where
    after :
        (p : Result A × World)
        → IsGrown p.1
            (elim p.0 as (λ _. Result A × World) [
              | ok a ↦ (ok a, p.1)
              | err e ↦ (err (f e), p.1)
            ]).1
    after (ok a, w') = IsGrown-refl w'
    after (err e, w') = IsGrown-refl w'

module _ (H : Host) where
  pub send-Grows : (request : Request) → Grows (send H request)
  unfolding Grows send
  send-Grows request w = record {
    sent = (request ∷ [], refl);
    key_calls = ([], refl);
    drawn = omega arith;
  }

  pub draw_uuid-Grows : Grows (draw_uuid H)
  unfolding Grows draw_uuid
  draw_uuid-Grows w = record { sent = ([], refl); key_calls = ([], refl); drawn = omega arith }

  pub draw_below-Grows : (bound : ℕ) → Grows (draw_below H bound)
  unfolding Grows draw_below
  draw_below-Grows bound w = record {
    sent = ([], refl);
    key_calls = ([], refl);
    drawn = omega arith;
  }

  pub generate_key-Grows : (tag : String) → Grows (generate_key H tag)
  unfolding Grows generate_key
  generate_key-Grows tag w = record {
    sent = ([], refl);
    key_calls = (generate tag ∷ [], refl);
    drawn = omega arith;
  }

  pub delete_key-Grows : (tag : String) → Grows (delete_key H tag)
  unfolding Grows delete_key
  delete_key-Grows tag w = record {
    sent = ([], refl);
    key_calls = (delete tag ∷ [], refl);
    drawn = omega arith;
  }

pub ruleset growing = (
  >>=-Grows, sequence-Grows, lift-Grows, pure-Grows, catch_with-Grows, send-Grows, draw_uuid-Grows,
  draw_below-Grows, generate_key-Grows, delete_key-Grows,
)

pub IsGrown-of_run :
    {A : Type 0} (m : Async A) {w w' : World} {r : Result A}
    → Grows m
    → m w ≡ (r, w')
    → IsGrown w w'
unfolding Grows
IsGrown-of_run m {w} grows h = rw (ap (λ p. p.1) (sym h)) (grows w)
