-- ===== src/Promise.antt =====
-- `Promise.all`, `try`/`catch` round a promise, and the world that a promise's work changes.
pub mod Steps
pub mod Sequence
pub mod Grows
use io_react_native_wallet_i.Base.{
  ◌≡◌, refl, ap, ℕ, String, Option, none, some, List, [], ◌∷◌, ◌+◌, arith,
}
use io_react_native_wallet_i.Host.{Host, Request, Response, KeyCall, generate, delete}
use io_react_native_wallet_i.Errors.{Error}
use io_react_native_wallet_i.Errors.Result
use io_react_native_wallet_i.Errors.Result.{Result, ok, err, >>=-eq-ok, ok-injective}

-- What an async callback comes to: it throws before its first `await`, or settles after it.
pub data Settled (A : Type 0) : Type 0 where
  rejected_at_once : Error → Settled A
  later : Result A → Settled A

module _ {A : Type 0} where
  unfoldable pub first_rejection : List (Settled A) → Option Error
  first_rejection [] = none
  first_rejection (rejected_at_once e ∷ ps) = some e
  first_rejection (later r ∷ ps) = first_rejection ps

  unfoldable pub collect : List (Settled A) → Result (List A)
  collect [] = ok []
  collect (rejected_at_once e ∷ ps) = err e
  collect (later r ∷ ps) = Result.◌>>=◌ r (λ a. Result.◌>>=◌ (collect ps) (λ rest. ok (a ∷ rest)))

  -- `Promise.all`: what is rejected at once comes before what is rejected after an `await`; the
  -- awaited calls settle in order.
  unfoldable pub promise_all : List (Settled A) → Result (List A)
  unfolding first_rejection collect
  promise_all ps = elim (first_rejection ps) [ some e ↦ err e | none ↦ collect ps ]

pub collect-nil : {A : Type 0} {ys : List A} → collect {A = A} [] ≡ ok ys → [] ≡ ys
unfolding collect
collect-nil h = ok-injective h

pub collect-cons :
    {A : Type 0} (s : Settled A) (ss : List (Settled A)) {ys : List A}
    → collect (s ∷ ss) ≡ ok ys
    → (y : A) × (rest : List A) × (s ≡ later (ok y)) × (collect ss ≡ ok rest) × (y ∷ rest ≡ ys)
unfolding collect
collect-cons (rejected_at_once e) ss h = cc
collect-cons (later r) ss h =
    let (y, h1, r1) = >>=-eq-ok r _ h in
    let (rest, h2, r2) = >>=-eq-ok (collect ss) _ r1 in (y, rest, ap later h1, h2, ok-injective r2)

pub promise_all-eq-ok :
    {A : Type 0} (ps : List (Settled A)) {xs : List A} → promise_all ps ≡ ok xs → collect ps ≡ ok xs
unfolding promise_all
promise_all-eq-ok ps h = ground (arith)

pub promise_all-eq-err :
    {A : Type 0} (ss : List (Settled A)) {e : Error}
    → first_rejection ss ≡ some e
    → promise_all ss ≡ err e
unfolding promise_all
promise_all-eq-err ss h = rw (h, promise_all) refl

first_rejection-collect :
    {A : Type 0} (ss : List (Settled A)) {xs : List A}
    → collect ss ≡ ok xs
    → first_rejection ss ≡ none
unfolding first_rejection
first_rejection-collect [] h = refl
first_rejection-collect (rejected_at_once e ∷ ss) h = absurd (cc (collect-cons _ ss h).2)
first_rejection-collect (later r ∷ ss) h =
    let (y, rest, _, more, _) = collect-cons (later r) ss h in first_rejection-collect ss more

pub promise_all_of_collect :
    {A : Type 0} (ss : List (Settled A)) {xs : List A} → collect ss ≡ ok xs → promise_all ss ≡ ok xs
unfolding promise_all
promise_all_of_collect ss h = rw (first_rejection-collect ss h, promise_all) h

-- The requests sent and the calls on the key store, newest first, and how often a random value was
-- drawn.
pub record World : Type 0 where
  pub sent : List Request
  pub drawn : ℕ
  pub key_calls : List KeyCall

-- The body of an async function, run to its end.
abbrev pub Async : Type 0 → Type 0
Async A = World → Result A × World

infixl 5 ◌>>=◌ ◌>>◌
abbrev pub ◌>>=◌ : {A B : Type 0} → Async A → (A → Async B) → Async B
◌>>=◌ m f w = let (r, w') = m w in elim r [ ok a ↦ f a w' | err e ↦ (err e, w') ]

abbrev pub ◌>>◌ : {B : Type 0} → Async (Unit {0}) → Async B → Async B
m >> k = m >>= λ _. k

-- A step that only returns or throws.
abbrev pub lift : {A : Type 0} → Result A → Async A
lift r w = (r, w)

abbrev pub pure : {A : Type 0} → A → Async A
pure a w = (ok a, w)

-- `.catch(e => { throw f(e) })`
abbrev pub catch_with : {A : Type 0} → (Error → Error) → Async A → Async A
catch_with f m w = let (r, w') = m w in elim r [ ok a ↦ (ok a, w') | err e ↦ (err (f e), w') ]

-- What evaluating an expression comes to, before anything is awaited: an async function never
-- throws here, it returns a promise that is rejected later.
pub data Completion (A : Type 0) : Type 0 where
  returned : A → Completion A
  threw : Error → Completion A

-- `try { return e } catch (error) { handler }` in an async function, with no `await` before `e`: the
-- promise is handed on, and its rejection is not caught.
unfoldable pub try_return : {A : Type 0} → Completion (Async A) → (Error → Async A) → Async A
try_return (returned promise) handler = promise
try_return (threw e) handler = handler e

-- The promises of an array are started in order, and all of them run.
unfoldable pub start_all :
    {A : Type 0} → List (World → Settled A × World) → World → List (Settled A) × World
start_all [] w = ([], w)
start_all (start ∷ more) w =
    let (s, w') = start w in let (rest, w'') = start_all more w' in (s ∷ rest, w'')

abbrev pub await_all : {A : Type 0} → List (World → Settled A × World) → Async (List A)
await_all starts w = let (settled, w') = start_all starts w in (promise_all settled, w')

module _ (H : Host) where
  -- `appFetch(url, init)`
  unfoldable pub send : Request → Async Response
  send request w = (H.fetch w.sent request, record w { sent = request ∷ w.sent })

  -- `uuidv4()`
  unfoldable pub draw_uuid : Async String
  draw_uuid w = (ok (H.uuid w.drawn), record w { drawn = w.drawn + 1 })

module _ (H : Host) where
  -- `generate(keytag)` and `deleteKey(keytag)`
  unfoldable pub generate_key : String → Async (Unit {0})
  generate_key tag w = (
    H.change_keys w.key_calls (generate tag),
    record w { key_calls = generate tag ∷ w.key_calls },
  )

  unfoldable pub delete_key : String → Async (Unit {0})
  delete_key tag w =
      (H.change_keys w.key_calls (delete tag), record w { key_calls = delete tag ∷ w.key_calls })

  -- `Math.floor(Math.random() * bound)`
  unfoldable pub draw_below : ℕ → Async ℕ
  draw_below bound w = (ok (H.random_below bound w.drawn), record w { drawn = w.drawn + 1 })

module _ {A B : Type 0} where
  pub >>=-of_returned :
      (m : Async A) (k : A → Async B) (w : World) {a : A} {w' : World}
      → m w ≡ (ok a, w')
      → (m >>= k) w ≡ k a w'
  >>=-of_returned m k w h =
      ap (λ (p : Result A × World). elim p.0 [ ok a ↦ k a p.1 | err e ↦ (err e, p.1) ]) h

  pub >>=-of_thrown :
      (m : Async A) (k : A → Async B) (w : World) {e : Error} {w' : World}
      → m w ≡ (err e, w')
      → (m >>= k) w ≡ (err e, w')
  >>=-of_thrown m k w h =
      ap (λ (p : Result A × World). elim p.0 [ ok a ↦ k a p.1 | err e ↦ (err e, p.1) ]) h

pub catch_with-of_thrown :
    {A : Type 0} (f : Error → Error) (m : Async A) (w : World) {e : Error} {w' : World}
    → m w ≡ (err e, w')
    → catch_with f m w ≡ (err (f e), w')
catch_with-of_thrown f m w h =
    ap (λ p. elim p.0 [ ok a ↦ (ok a, p.1) | err e ↦ (err (f e), p.1) ]) h
