-- ===== src/Credential/Authorize.antt =====
-- src/credential/issuance/03-start-user-authorization.ts and 04-complete-user-authorization.ts: the
-- pushed authorization request, and the two ways to complete the authorization of the user.
pub mod Started
pub mod Presented
use io_react_native_wallet_i.Base.{String, Option, none, some, List, [], ◌∷◌, ◌<>◌, true}
use io_react_native_wallet_i.Base.Dict.{Dict}
use io_react_native_wallet_i.Value.{Value, prop, obj, arr, maybe_string}
use io_react_native_wallet_i.Zod.{Zod, Schema}
use io_react_native_wallet_i.Zod
use io_react_native_wallet_i.Host.{Host, CryptoContext, Request, JwtToSign}
use io_react_native_wallet_i.Errors.{new_validation_failed}
use io_react_native_wallet_i.Errors.Result
use io_react_native_wallet_i.Errors.Result.{Result, ok, err}
use io_react_native_wallet_i.Promise.{Async, ◌>>=◌, lift, pure, send, draw_uuid}
use io_react_native_wallet_i.Http.{has_status_or_throw, issuer_response, body_json}
use io_react_native_wallet_i.Random.{generate_random_alpha_numeric_string}
use io_react_native_wallet_i.Par.{ParRequest, make_par_request, form_request}
use io_react_native_wallet_i.FormPost.{get_jwt_from_form_post}
use io_react_native_wallet_i.Trust.Entities.{IssuerMetadata}
use io_react_native_wallet_i.Presentation.{RequestObject, parse_request_object}
use io_react_native_wallet_i.Credential.Parse.{kid_text}
use io_react_native_wallet_i.Credential.Obtain.{AuthorizationDetail}
use io_react_native_wallet_i.Credential.Select.{
  AuthorizationResult, select_credential_definition, select_response_mode,
  parse_authorization_response,
}

abbrev pub assertion_type : String
assertion_type = "urn:ietf:params:oauth:client-assertion-type:jwt-client-attestation"

-- What `startUserAuthorization` returns; the request uri is what the issuer's answer has.
pub record UserAuthorization : Type 0 where
  pub issuer_request_uri : Value
  pub client_id : Option String
  pub code_verifier : String
  pub credential_definition : AuthorizationDetail

module _ (z : Zod) where
  -- `ResponseUriResultShape`
  unfoldable pub parse_response_uri : Schema String
  parse_response_uri v = Zod.◌>>=◌ (z.object v) λ o. z.string (prop "redirect_uri" o)

module _ (H : Host) where
  abbrev pub par_request :
      IssuerMetadata
      → (attestation redirect_uri : String) → Option String
      → (code_verifier mode : String) → AuthorizationDetail
      → ParRequest
  par_request issuer_conf attestation redirect_uri client_id code_verifier mode definition =
      record {
        client_id = client_id;
        code_verifier = code_verifier;
        redirect_uri = redirect_uri;
        response_mode = mode;
        par_endpoint = issuer_conf.oauth_authorization_server.pushed_authorization_request_endpoint;
        wallet_instance_attestation = attestation;
        authorization_details = definition ∷ [];
        assertion_type = assertion_type;
      }

  -- What is done once the client id and the code verifier are known.
  unfoldable pub push_authorization :
      IssuerMetadata
      → String
      → CryptoContext
      → (attestation redirect_uri : String) → Option String
      → (code_verifier : String) → Async UserAuthorization
  push_authorization issuer_conf credential_type wia_ctx attestation redirect_uri kid verifier = do
    definition ← lift (select_credential_definition issuer_conf credential_type)
    mode ← lift (select_response_mode issuer_conf credential_type)
    uri ←
        make_par_request H wia_ctx
          (par_request issuer_conf attestation redirect_uri kid verifier mode definition)
    pure (record {
      issuer_request_uri = uri;
      client_id = kid;
      code_verifier = verifier;
      credential_definition = definition;
    })

  unfoldable pub start_user_authorization :
      IssuerMetadata
      → String
      → CryptoContext
      → (attestation redirect_uri : String) → Async UserAuthorization
  unfolding push_authorization
  start_user_authorization issuer_conf credential_type wia_ctx attestation redirect_uri = do
    key ← lift wia_ctx.get_public_key
    code_verifier ← generate_random_alpha_numeric_string H 64
    push_authorization issuer_conf credential_type wia_ctx attestation redirect_uri key.kid
        code_verifier

  -- `${endpoint}?${params}`
  abbrev pub with_params : String → Dict String → String
  with_params endpoint params = endpoint <> ("?" <> H.search_params params)

  unfoldable pub build_authorization_url : Value → Option String → IssuerMetadata → String → String
  build_authorization_url issuer_request_uri client_id issuer_conf idp_hint =
      with_params issuer_conf.oauth_authorization_server.authorization_endpoint (
        ("client_id", kid_text client_id)
        ∷ ("request_uri", H.to_text issuer_request_uri)
        ∷ ("idphint", idp_hint)
        ∷ [])

  unfoldable pub complete_user_authorization_with_query_mode : String → Result AuthorizationResult
  complete_user_authorization_with_query_mode auth_redirect_url =
      Result.◌>>=◌ (H.url_query auth_redirect_url) λ query. parse_authorization_response H query

  abbrev pub get : String → Request
  get url = record { url = url; method = "GET"; headers = []; body = none }

  abbrev pub checked_object : Value → Result RequestObject
  checked_object payload = elim (parse_request_object H.zod payload) [
    | some object ↦ ok object
    | none ↦ err (
        new_validation_failed H.json_stringify "Request Object validation failed" "unspecified"
          (H.zod.error_message "RequestObject" payload))
  ]

  unfoldable pub get_requested_credential_to_be_presented :
      Value → Option String → IssuerMetadata → Async RequestObject
  get_requested_credential_to_be_presented issuer_request_uri client_id issuer_conf = do
    res ← send H (
        get (
          with_params issuer_conf.oauth_authorization_server.authorization_endpoint (
            ("client_id", kid_text client_id)
            ∷ ("request_uri", H.to_text issuer_request_uri)
            ∷ [])))
    jws ← lift (has_status_or_throw H 200 (issuer_response H) res)
    decoded ← lift (H.jwt_decode jws.text)
    lift (checked_object decoded.payload)

  -- The two tokens that present a credential for the nonce of a request object.
  abbrev pub wp_token : (vp jti : String) → RequestObject → JwtToSign
  wp_token vp jti object = record {
    protected_header = ("alg", Value.string "ES256") ∷ ("typ", Value.string "JWT") ∷ [];
    payload =
        ("vp", Value.string vp)
        ∷ ("jti", Value.string jti)
        ∷ ("nonce", Value.string object.nonce)
        ∷ [];
    audience = some object.response_uri;
    issuer = none;
    issued_at = true;
    expiration_time = some (Value.string "5m");
  }

  abbrev pub descriptor : (id path format : String) → Value
  descriptor id path format =
      obj (
        ("id", Value.string id)
        ∷ ("path", Value.string path)
        ∷ ("format", Value.string format)
        ∷ [])

  abbrev pub presentation_submission : (definition_id id : String) → Value
  presentation_submission definition_id id = obj (
      ("definition_id", Value.string definition_id)
      ∷ ("id", Value.string id)
      ∷ (
        "descriptor_map",
        arr (
            descriptor "PersonIdentificationData" "$.vp_token[0].vp" "vc+sd-jwt"
            ∷ descriptor "WalletAttestation" "$.vp_token[1].vp" "jwt"
            ∷ []),
      )
      ∷ [])

  abbrev pub authz_response_payload :
      RequestObject → (definition_id id pid_token wia_token : String) → String
  authz_response_payload object definition_id id pid_token wia_token = H.encode_base64 (
      H.json_stringify (
        obj (
          ("state", Value.string object.state)
          ∷ ("presentation_submission", presentation_submission definition_id id)
          ∷ ("vp_token", arr (Value.string pid_token ∷ Value.string wia_token ∷ []))
          ∷ [])))

  abbrev pub checked_response_uri : Value → Result String
  checked_response_uri body = elim (parse_response_uri H.zod body) [
    | some uri ↦ ok uri
    | none ↦ err (
        new_validation_failed H.json_stringify "Response Uri validation failed" "unspecified"
          (H.zod.error_message "ResponseUriResultShape" body))
  ]

  -- `appFetch(redirect_uri)`: a GET request. The page holds the response in a form.
  unfoldable pub read_form_post : String → Async AuthorizationResult
  read_form_post redirect_uri = do
    res ← send H (get redirect_uri)
    page ← lift (has_status_or_throw H 200 (issuer_response H) res)
    found ← lift (get_jwt_from_form_post H page.text)
    lift (parse_authorization_response H found.decoded_jwt.payload)

  -- The POST of the response, and the redirect uri of the answer.
  unfoldable pub post_response : String → String → Async String
  post_response response_uri payload = do
    res ← send H (form_request H response_uri [] (("response", payload) ∷ []))
    checked ← lift (has_status_or_throw H 200 (issuer_response H) res)
    body ← lift (body_json H checked)
    lift (checked_response_uri body)

  unfoldable pub complete_user_authorization_with_form_post_jwt_mode :
      RequestObject
      → (wia_ctx pid_ctx : CryptoContext) → (pid attestation : String) → Async AuthorizationResult
  unfolding post_response read_form_post
  complete_user_authorization_with_form_post_jwt_mode object wia_ctx pid_ctx pid attestation = do
    wia_jti ← draw_uuid H
    wia_token ← lift (H.jwt_sign wia_ctx (wp_token attestation wia_jti object))
    pid_jti ← draw_uuid H
    pid_token ← lift (H.jwt_sign pid_ctx (wp_token pid pid_jti object))
    definition_id ← draw_uuid H
    id ← draw_uuid H
    uri ←
        post_response object.response_uri
          (authz_response_payload object definition_id id pid_token wia_token)
    read_form_post uri
