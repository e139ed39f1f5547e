-- ===== src/Par/Pushed.antt =====
-- `makeParRequest` of src/utils/par.ts: what was sent and answered when it returns.
use io_react_native_wallet_i.Base.{
  ◌≡◌, ap, ◌∙◌, String, [], ◌∷◌, some, none, true, map, ◌<>◌, ℕ, zero, suc, ◌+◌,
}
use io_react_native_wallet_i.Value.{Value, obj, arr, maybe_string}
use io_react_native_wallet_i.Jwk.{Jwk}
use io_react_native_wallet_i.Host.{Host, CryptoContext, Url}
use io_react_native_wallet_i.Errors.Result.{ok}
use io_react_native_wallet_i.Promise.{World, pure, draw_below, draw_uuid}
use io_react_native_wallet_i.Promise.Steps.{>>=-eq-returned, step}
use io_react_native_wallet_i.Http.{member, issuer_response}
use io_react_native_wallet_i.Http.Answered.{IsAnswered, after_nothing-sent, read_answer-IsAnswered}
use io_react_native_wallet_i.Tokens.{create_pop_token}
use io_react_native_wallet_i.Tokens.Signed.{IsPop, create_pop_token-IsPop}
use io_react_native_wallet_i.Credential.Parse.{kid_text}
use io_react_native_wallet_i.Credential.Obtain.{AuthorizationDetail}
use io_react_native_wallet_i.Random.{to_base36, generate_random_alpha_numeric_string}
use io_react_native_wallet_i.Wallet.{decode, WalletInstanceAttestationJwt}
use io_react_native_wallet_i.Par.{
  ParRequest, audience_of, par_to_sign, par_fields, form_request, push_request, sign_and_push,
  make_par_request,
}

-- A credential definition in the request object.
abbrev described : AuthorizationDetail → Value
described d = obj (
    ("credential_configuration_id", Value.string d.credential_configuration_id)
    ∷ ("format", Value.string d.format)
    ∷ ("type", Value.string d.type)
    ∷ [])

-- The request object of a pushed request is signed, and asks for what the pushed form asks for.
pub record IsPushed (H : Host) (ctx : CryptoContext) (p : ParRequest) (uri : Value)
    (before after : World) : Type 0 where
  pub key : Jwk
  pub url : Url
  pub attestation : WalletInstanceAttestationJwt
  pub pop_jti : String
  pub jti : String
  pub state : String
  pub pop : String
  pub signed_jwt : String
  pub body : Value
  pub has_key : ctx.get_public_key ≡ ok key
  pub has_url : H.parse_url p.par_endpoint ≡ ok url
  pub decoded : decode H p.wallet_instance_attestation ≡ ok attestation
  pub proved :
      IsPop H ctx pop_jti (url.protocol <> ("//" <> url.hostname)) attestation.payload.cnf_kid pop
  pub signed :
      H.jwt_sign ctx (record {
        protected_header = ("typ", Value.string "jwk") ∷ ("kid", maybe_string key.kid) ∷ [];
        payload =
            ("jti", Value.string jti)
            ∷ ("aud", Value.string (url.protocol <> ("//" <> url.hostname)))
            ∷ ("response_type", Value.string "code")
            ∷ ("response_mode", Value.string p.response_mode)
            ∷ ("client_id", maybe_string p.client_id)
            ∷ ("iss", Value.string attestation.payload.cnf_kid)
            ∷ ("state", Value.string state)
            ∷ ("code_challenge", Value.string (H.sha256_to_base64 p.code_verifier))
            ∷ ("code_challenge_method", Value.string "S256")
            ∷ ("authorization_details", arr (map described p.authorization_details))
            ∷ ("redirect_uri", Value.string p.redirect_uri)
            ∷ ("client_assertion_type", Value.string p.assertion_type)
            ∷ ("client_assertion", Value.string (p.wallet_instance_attestation <> ("~" <> pop)))
            ∷ [];
        audience = none;
        issuer = none;
        issued_at = true;
        expiration_time = some (Value.string "5min");
      })
      ≡ ok signed_jwt
  pub answered :
      IsAnswered H 201
        (record {
          url = p.par_endpoint;
          method = "POST";
          headers = ("Content-Type", "application/x-www-form-urlencoded") ∷ [];
          body = some (
              H.search_params (
                ("response_type", "code")
                ∷ ("client_id", kid_text p.client_id)
                ∷ ("code_challenge", H.sha256_to_base64 p.code_verifier)
                ∷ ("code_challenge_method", "S256")
                ∷ ("request", signed_jwt)
                ∷ ("client_assertion_type", p.assertion_type)
                ∷ ("client_assertion", p.wallet_instance_attestation <> ("~" <> pop))
                ∷ []));
        })
        body
        before
        after
  pub has_uri : member "request_uri" body ≡ ok uri

pub after_nothing-IsPushed :
    (H : Host) {ctx : CryptoContext} {p : ParRequest} {uri : Value} {before middle after : World}
    → before.sent ≡ middle.sent
    → IsPushed H ctx p uri middle after
    → IsPushed H ctx p uri before after
after_nothing-IsPushed H same r = record {
  key = r.key;
  url = r.url;
  attestation = r.attestation;
  pop_jti = r.pop_jti;
  jti = r.jti;
  state = r.state;
  pop = r.pop;
  signed_jwt = r.signed_jwt;
  body = r.body;
  has_key = r.has_key;
  has_url = r.has_url;
  decoded = r.decoded;
  proved = r.proved;
  signed = r.signed;
  answered = after_nothing-sent H same r.answered;
  has_uri = r.has_uri;
}

module _ (H : Host) where
  -- A random text sends nothing.
  pub generate_random_alpha_numeric_string-sent :
      (size : ℕ) (w : World) {s : String} {w' : World}
      → generate_random_alpha_numeric_string H size w ≡ (ok s, w')
      → w.sent ≡ w'.sent
  unfolding generate_random_alpha_numeric_string draw_below
  generate_random_alpha_numeric_string-sent zero w h = ap (λ p. p.1.sent) h
  generate_random_alpha_numeric_string-sent (suc size) w h =
      let (s, w', h1, h2) =
        >>=-eq-returned (generate_random_alpha_numeric_string H size)
          (λ rest. pure (to_base36 (H.random_below 36 w.drawn) <> rest))
          (record w { drawn = w.drawn + 1 }) h in
      generate_random_alpha_numeric_string-sent size (record w { drawn = w.drawn + 1 }) h1
      ∙ ap (λ p. p.1.sent) h2

  push_request-IsAnswered :
      (p : ParRequest) (signed_jwt pop : String) (w : World) {uri : Value} {w' : World}
      → push_request H p signed_jwt pop w ≡ (ok uri, w')
      → (body : Value) × IsAnswered H 201
          (form_request H p.par_endpoint [] (par_fields H p signed_jwt pop))
          body
          w
          w'
        × (member "request_uri" body ≡ ok uri)
  unfolding push_request
  push_request-IsAnswered p signed_jwt pop w h =
      read_answer-IsAnswered H 201 (issuer_response H)
        (form_request H p.par_endpoint [] (par_fields H p signed_jwt pop)) (member "request_uri") w
        h

  pub make_par_request-IsPushed :
      (ctx : CryptoContext) (p : ParRequest) (w : World) {uri : Value} {w' : World}
      → make_par_request H ctx p w ≡ (ok uri, w')
      → IsPushed H ctx p uri w w'
  unfolding make_par_request sign_and_push draw_uuid
  make_par_request-IsPushed ctx p w h =
      let (key, e1, h1) = step ctx.get_public_key _ w h in
      let (url, e2, h2) = step (H.parse_url p.par_endpoint) _ w h1 in
      let (wia, e3, h3) = step (decode H p.wallet_instance_attestation) _ w h2 in
      let (pop, e4, h4) =
        step (create_pop_token H (H.uuid w.drawn) (audience_of url) wia.payload.cnf_kid ctx) _
          (record w { drawn = w.drawn + 1 }) h3 in
      let w1 = record w { drawn = w.drawn + 1 + 1 } in
      let (state, w2, e5, h5) =
        >>=-eq-returned (generate_random_alpha_numeric_string H 32)
          (sign_and_push H ctx p key.kid (audience_of url) wia.payload.cnf_kid
            (H.uuid (w.drawn + 1)) pop)
          w1 h4 in
      let (signed_jwt, e6, h6) =
        step
          (H.jwt_sign ctx (
            par_to_sign H p key.kid (H.uuid (w.drawn + 1)) (audience_of url) wia.payload.cnf_kid
              state pop))
          _ w2 h5 in
      let (body, answer, e7) = push_request-IsAnswered p signed_jwt pop w2 h6 in
      record {
        key = key;
        url = url;
        attestation = wia;
        pop_jti = H.uuid w.drawn;
        jti = H.uuid (w.drawn + 1);
        state = state;
        pop = pop;
        signed_jwt = signed_jwt;
        body = body;
        has_key = e1;
        has_url = e2;
        decoded = e3;
        proved =
            create_pop_token-IsPop H ctx (H.uuid w.drawn) (audience_of url) wia.payload.cnf_kid e4;
        signed = e6;
        answered = after_nothing-sent H (generate_random_alpha_numeric_string-sent 32 w1 e5) answer;
        has_uri = e7;
      }
