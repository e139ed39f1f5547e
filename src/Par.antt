-- ===== src/Par.antt =====
-- `makeParRequest` of src/utils/par.ts.
pub mod Pushed
use io_react_native_wallet_i.Base.{String, true, Option, none, some, List, [], ◌∷◌, ◌<>◌, map}
use io_react_native_wallet_i.Base.Dict.{Dict}
use io_react_native_wallet_i.Value.{Value, obj, arr, maybe_string}
use io_react_native_wallet_i.Host.{Host, CryptoContext, JwtToSign, Request, Url}
use io_react_native_wallet_i.Promise.{Async, ◌>>=◌, lift, send, draw_uuid}
use io_react_native_wallet_i.Http.{has_status_or_throw, member, issuer_response, body_json}
use io_react_native_wallet_i.Tokens.{create_pop_token}
use io_react_native_wallet_i.Random.{generate_random_alpha_numeric_string}
use io_react_native_wallet_i.Wallet.{decode}
use io_react_native_wallet_i.Credential.Obtain.{AuthorizationDetail}
use io_react_native_wallet_i.Credential.Parse.{kid_text}

abbrev pub detail_value : AuthorizationDetail → Value
detail_value d = obj (
    ("credential_configuration_id", Value.string d.credential_configuration_id)
    ∷ ("format", Value.string d.format)
    ∷ ("type", Value.string d.type)
    ∷ [])

-- `${url.protocol}//${url.hostname}`
abbrev pub audience_of : Url → String
audience_of url = url.protocol <> ("//" <> url.hostname)

-- The arguments of the function that `makeParRequest` returns.
pub record ParRequest : Type 0 where
  pub client_id : Option String
  pub code_verifier : String
  pub redirect_uri : String
  pub response_mode : String
  pub par_endpoint : String
  pub wallet_instance_attestation : String
  pub authorization_details : List AuthorizationDetail
  pub assertion_type : String

abbrev pub client_assertion : String → String → String
client_assertion attestation signed_pop = attestation <> ("~" <> signed_pop)

module _ (H : Host) where
  abbrev pub par_to_sign : ParRequest → Option String → (jti aud iss state pop : String) → JwtToSign
  par_to_sign p kid jti aud iss state pop = record {
    protected_header = ("typ", Value.string "jwk") ∷ ("kid", maybe_string kid) ∷ [];
    payload =
        ("jti", Value.string jti)
        ∷ ("aud", Value.string aud)
        ∷ ("response_type", Value.string "code")
        ∷ ("response_mode", Value.string p.response_mode)
        ∷ ("client_id", maybe_string p.client_id)
        ∷ ("iss", Value.string iss)
        ∷ ("state", Value.string state)
        ∷ ("code_challenge", Value.string (H.sha256_to_base64 p.code_verifier))
        ∷ ("code_challenge_method", Value.string "S256")
        ∷ ("authorization_details", arr (map detail_value p.authorization_details))
        ∷ ("redirect_uri", Value.string p.redirect_uri)
        ∷ ("client_assertion_type", Value.string p.assertion_type)
        ∷ ("client_assertion", Value.string (client_assertion p.wallet_instance_attestation pop))
        ∷ [];
    audience = none;
    issuer = none;
    issued_at = true;
    expiration_time = some (Value.string "5min");
  }

  abbrev pub par_fields : ParRequest → String → String → Dict String
  par_fields p signed_jwt pop =
      ("response_type", "code")
      ∷ ("client_id", kid_text p.client_id)
      ∷ ("code_challenge", H.sha256_to_base64 p.code_verifier)
      ∷ ("code_challenge_method", "S256")
      ∷ ("request", signed_jwt)
      ∷ ("client_assertion_type", p.assertion_type)
      ∷ ("client_assertion", client_assertion p.wallet_instance_attestation pop)
      ∷ []

  -- A POST request with a body of the type `application/x-www-form-urlencoded`.
  abbrev pub form_request : String → Dict String → Dict String → Request
  form_request url headers fields = record {
    url = url;
    method = "POST";
    headers = ("Content-Type", "application/x-www-form-urlencoded") ∷ headers;
    body = some (H.search_params fields);
  }

  -- The request, once its signed texts are made. `result.request_uri` is not checked to be a text.
  unfoldable pub push_request : ParRequest → (signed_jwt pop : String) → Async Value
  push_request p signed_jwt pop = do
    res ← send H (form_request p.par_endpoint [] (par_fields p signed_jwt pop))
    checked ← lift (has_status_or_throw H 201 (issuer_response H) res)
    result ← lift (body_json H checked)
    lift (member "request_uri" result)

  unfoldable pub sign_and_push :
      CryptoContext → ParRequest → Option String → (aud iss jti pop state : String) → Async Value
  unfolding push_request
  sign_and_push wia_ctx p kid aud iss jti pop state = do
    signed_jwt ← lift (H.jwt_sign wia_ctx (par_to_sign p kid jti aud iss state pop))
    push_request p signed_jwt pop

  unfoldable pub make_par_request : CryptoContext → ParRequest → Async Value
  unfolding sign_and_push
  make_par_request wia_ctx p = do
    wia_public_key ← lift wia_ctx.get_public_key
    par_url ← lift (H.parse_url p.par_endpoint)
    wia ← lift (decode H p.wallet_instance_attestation)
    pop_jti ← draw_uuid H
    pop ← lift (create_pop_token H pop_jti (audience_of par_url) wia.payload.cnf_kid wia_ctx)
    jti ← draw_uuid H
    state ← generate_random_alpha_numeric_string H 32
    sign_and_push wia_ctx p wia_public_key.kid (audience_of par_url) wia.payload.cnf_kid jti pop
        state
