-- ===== src/Http/Answered.antt =====
-- A request and its checked answer.
use io_react_native_wallet_i.Base.{◌≡◌, sym, ap, ◌∙◌, ◌∷◌, ℕ}
use io_react_native_wallet_i.Value.{Value}
use io_react_native_wallet_i.Host.{Host, Request, Response}
use io_react_native_wallet_i.Errors.Result.{Result, ok}
use io_react_native_wallet_i.Promise.{World, ◌>>=◌, lift, send}
use io_react_native_wallet_i.Promise.Steps.{step, lift-eq}
use io_react_native_wallet_i.Http.{ErrorMaker, has_status_or_throw, body_json}
use io_react_native_wallet_i.Http.Checked.{has_status_or_throw-eq-ok}

-- The answer to a request: the request is the newest one of the world after, its answer has the
-- status and a body of JSON.
pub record IsAnswered (H : Host) (n : ℕ) (request : Request) (body : Value) (before after : World)
    : Type 0 where
  pub response : Response
  pub answered : H.fetch before.sent request ≡ ok response
  pub has_status : response.status ≡ n
  pub has_body : body_json H response ≡ ok body
  pub sent : after.sent ≡ request ∷ before.sent

-- What sends nothing may come before.
pub after_nothing-sent :
    (H : Host) {n : ℕ} {request : Request} {body : Value} {before middle after : World}
    → before.sent ≡ middle.sent
    → IsAnswered H n request body middle after
    → IsAnswered H n request body before after
after_nothing-sent H {n} {request} {body} {before} {middle} {after} same answer = record {
  response = answer.response;
  answered = ap (λ sent. H.fetch sent request) same ∙ answer.answered;
  has_status = answer.has_status;
  has_body = answer.has_body;
  sent = answer.sent ∙ ap (λ sent. request ∷ sent) (sym same);
}

module _ (H : Host) where
  -- A request whose answer is checked and read is answered, and what is read comes from its body.
  pub read_answer-IsAnswered :
      {A : Type 0} (n : ℕ) (make : ErrorMaker) (request : Request) (read : Value → Result A)
      (w : World) {a : A} {w' : World}
      → (send H request >>= λ res. lift (has_status_or_throw H n make res) >>= λ checked.
            lift (body_json H checked) >>= λ body. lift (read body))
          w
        ≡ (ok a, w')
      → (body : Value) × IsAnswered H n request body w w' × (read body ≡ ok a)
  unfolding send
  read_answer-IsAnswered n make request read w h =
      let (res, e1, h1) = step (H.fetch w.sent request) _ _ h in
      let (checked, e2, h2) = step (has_status_or_throw H n make res) _ _ h1 in
      let (body, e3, h3) = step (body_json H checked) _ _ h2 in
      let (same, has_status) = has_status_or_throw-eq-ok H n make res e2 in
      let (e4, e5) = lift-eq (read body) _ h3 in
      (
        body,
        record {
          response = res;
          answered = e1;
          has_status = has_status;
          has_body = ap (body_json H) same ∙ e3;
          sent = sym (ap (λ (v : World). v.sent) e5);
        },
        e4,
      )
