-- ===== src/Provider.antt =====
-- The wallet provider: its client, src/client/index.ts, the attestation of the wallet instance,
-- src/wallet-instance-attestation/issuing.ts, and the wallet instance, src/wallet-instance/index.ts.
-- The value of a path parameter has no `$`.
pub mod Refused
pub mod Tests
use Prim.Native.String.{[], ◌∷◌}
use io_react_native_wallet_i.Base.{
  ℕ, true, String, Bool, Option, none, some, List, [], ◌∷◌, ◌==◌, ◌<>◌, ◌&&◌, leb, same_char,
  if◌then◌else◌,
}
use io_react_native_wallet_i.Base.Dict.{Dict}
use io_react_native_wallet_i.Value.{Value, prop, obj}
use io_react_native_wallet_i.Zod
use io_react_native_wallet_i.Zod.{Zod, Schema, parse}
use io_react_native_wallet_i.Jwk.{Jwk, jwk_value, parse_jwk, fix_base64_encoding_on_key}
use io_react_native_wallet_i.Host.{Host, CryptoContext, Request, Response, JwtToSign}
use io_react_native_wallet_i.Errors.{Error, GenericErrorReason, text, json}
use io_react_native_wallet_i.Errors.Builder.{new_wallet_provider_response_error}
use io_react_native_wallet_i.Errors.Handlers.{
  handle_attestation_creation_error, handle_create_wallet_instance_error,
}
use io_react_native_wallet_i.Errors.Result
use io_react_native_wallet_i.Errors.Result.{Result, ok, err}
use io_react_native_wallet_i.Promise.{Async, ◌>>=◌, lift, pure, send, catch_with}
use io_react_native_wallet_i.Http.{body_json, parse_raw_http_response, member}

-- `EndpointParameters`, where the path has texts only.
pub record EndpointParameters : Type 0 where
  pub body : Value
  pub path : Dict String

-- What follows a text at the head of another one.
unfoldable pub strip : String → String → Option String
strip [] s = some s
strip (c ∷ lit) [] = none
strip (c ∷ lit) (d ∷ s) = let rest = strip lit s in if same_char c d then rest else none

-- `s.replace(pattern, value)`: the first place of the pattern, which is not empty.
unfoldable pub replace : String → String → String → String
replace pattern value [] = ""
replace pattern value (c ∷ s) =
    let rest = replace pattern value s in
    elim (strip pattern (c ∷ s)) [ some tail ↦ value <> tail | none ↦ c ∷ rest ]

abbrev pub replace_all : Dict String → String → String
replace_all [] url = url
replace_all ((key, value) ∷ path) url = replace_all path (replace ("{" <> (key <> "}")) value url)

abbrev pub interpolate_url : String → Option EndpointParameters → String
interpolate_url url none = url
interpolate_url url (some params) = replace_all params.path url

-- The function that the generated client calls, with a method, a url and the parameters.
abbrev pub Fetcher : Type 0
Fetcher = String → String → Option EndpointParameters → Async GenericErrorReason

-- What is generated from the provider's interface: `createApiClient(fetcher, baseUrl)` as the function
-- that its `get`, `post` and `put` are, and the schema `ProblemDetail`.
pub record Generated : Type 0 where
  pub create_api_client : Fetcher → String → Fetcher
  pub problem_detail : Schema Value

-- `IntegrityContext`, whose functions are the platform's.
pub record IntegrityContext : Type 0 where
  pub hardware_key_tag : String
  pub get_attestation : Value → Result String
  pub get_hardware_signature_with_auth_data : String → Result (String × String)

-- `response.ok`
abbrev pub is_ok : Response → Bool
is_ok response = leb 200 response.status && leb response.status 299

abbrev pub invalid_response : String
invalid_response = "Invalid response from Wallet Provider"

-- `problemDetail.title ?? ...`, where the title is a text or missing.
abbrev pub title_of : Value → String
title_of (Value.string title) = title
title_of _ = invalid_response

-- What the client hands on, as a value.
abbrev pub raw_value : GenericErrorReason → Value
raw_value (text s) = Value.string s
raw_value (json v) = v

module _ (H : Host) (G : Generated) where
  -- A body that is no JSON, or no problem, stands for one with the default title.
  abbrev pub problem_of : Response → Value
  problem_of response = elim (body_json H response) [
    | err e ↦ obj (("title", Value.string invalid_response) ∷ [])
    | ok body ↦ elim (G.problem_detail body) [
      | none ↦ obj (("title", Value.string invalid_response) ∷ [])
      | some problem ↦ problem
    ]
  ]

  abbrev pub provider_error : Response → Error
  provider_error response =
      new_wallet_provider_response_error H.json_stringify none
        (title_of (prop "title" (problem_of response))) (json (problem_of response)) response.status

  unfoldable pub validate_response : Response → Result Response
  validate_response response = if is_ok response then ok response else err (provider_error response)

  -- `JSON.stringify(undefined)` is `undefined`.
  abbrev pub stringified : Value → Option String
  stringified Value.undefined = none
  stringified v = some (H.json_stringify v)

  abbrev pub json_body : Option EndpointParameters → Option String
  json_body none = none
  json_body (some params) = stringified params.body

  abbrev pub client_request : String → String → Option EndpointParameters → Request
  client_request method url params = record {
    url = interpolate_url url params;
    method = method;
    headers = ("Content-Type", "application/json") ∷ [];
    body = json_body params;
  }

  unfoldable pub client_fetch : Fetcher
  client_fetch method url params = do
    response ← send H (client_request method url params)
    valid ← lift (validate_response response)
    lift (parse_raw_http_response H valid)

  unfoldable pub get_wallet_provider_client : String → Fetcher
  unfolding client_fetch
  get_wallet_provider_client base_url = G.create_api_client client_fetch base_url

  -- `api.get("/nonce").then((response) => response.nonce)`, which is not checked to be a text.
  abbrev pub get_nonce : String → Async Value
  get_nonce base_url = do
    response ← get_wallet_provider_client base_url "get" "/nonce" none
    lift (member "nonce" (raw_value response))

  abbrev pub client_data : Value → String → Value
  client_data challenge thumbprint =
      obj (("challenge", challenge) ∷ ("jwk_thumbprint", Value.string thumbprint) ∷ [])

  abbrev pub request_to_sign :
      Value → Jwk → (thumbprint signature assertion tag base_url : String) → JwtToSign
  request_to_sign challenge key thumbprint signature assertion tag base_url = record {
    payload =
        ("iss", Value.string thumbprint)
        ∷ ("sub", Value.string base_url)
        ∷ ("challenge", challenge)
        ∷ ("hardware_signature", Value.string signature)
        ∷ ("integrity_assertion", Value.string assertion)
        ∷ ("hardware_key_tag", Value.string tag)
        ∷ (
          "cnf",
          obj (
              (
                "jwk",
                jwk_value (
                    fix_base64_encoding_on_key H.remove_padding
                      (record key { kid = some thumbprint })),
              )
              ∷ []),
        )
        ∷ [];
    protected_header = ("kid", Value.string thumbprint) ∷ ("typ", Value.string "war+jwt") ∷ [];
    audience = none;
    issuer = none;
    issued_at = true;
    expiration_time = some (Value.string "1h");
  }

  unfoldable pub get_attestation_request :
      Value → CryptoContext → IntegrityContext → String → Result String
  get_attestation_request challenge wia_ctx integrity base_url =
      Result.◌>>=◌ wia_ctx.get_public_key λ jwk.
        Result.◌>>=◌ (parse H.zod "JWK" (parse_jwk H.zod) (jwk_value jwk)) λ key.
          Result.◌>>=◌ (H.thumbprint key) λ thumbprint.
            Result.◌>>=◌
              (integrity.get_hardware_signature_with_auth_data
                (H.json_stringify (client_data challenge thumbprint)))
              λ signed. H.jwt_sign wia_ctx (
                request_to_sign challenge key thumbprint signed.0 signed.1
                  integrity.hardware_key_tag base_url)

  unfoldable pub parse_token : Schema String
  parse_token v = Zod.◌>>=◌ (H.zod.object v) λ o. H.zod.string (prop "wallet_attestation" o)

  abbrev pub token_parameters : String → EndpointParameters
  token_parameters assertion = record {
    body = obj (
        ("grant_type", Value.string "urn:ietf:params:oauth:grant-type:jwt-bearer")
        ∷ ("assertion", Value.string assertion)
        ∷ []);
    path = [];
  }

  -- `api.post("/token", ...).then((result) => TokenResponse.parse(result))`
  abbrev pub post_token : String → String → Async String
  post_token base_url assertion = do
    result ← get_wallet_provider_client base_url "post" "/token" (some (token_parameters assertion))
    lift (parse H.zod "TokenResponse" parse_token (raw_value result))

  unfoldable pub get_attestation : CryptoContext → IntegrityContext → String → Async String
  unfolding get_wallet_provider_client
  get_attestation wia_ctx integrity base_url = do
    challenge ← get_nonce base_url
    assertion ← lift (get_attestation_request challenge wia_ctx integrity base_url)
    catch_with (handle_attestation_creation_error H.json_stringify) (post_token base_url assertion)

  abbrev pub creation_parameters : Value → (key_attestation tag : String) → EndpointParameters
  creation_parameters challenge key_attestation tag = record {
    body = obj (
        ("challenge", challenge)
        ∷ ("key_attestation", Value.string key_attestation)
        ∷ ("hardware_key_tag", Value.string tag)
        ∷ []);
    path = [];
  }

  -- The challenge goes to the platform as it came.
  unfoldable pub create_wallet_instance : IntegrityContext → String → Async String
  unfolding get_wallet_provider_client
  create_wallet_instance integrity base_url = do
    challenge ← get_nonce base_url
    key_attestation ← lift (integrity.get_attestation challenge)
    _ ← catch_with (handle_create_wallet_instance_error H.json_stringify) (
        get_wallet_provider_client base_url "post" "/wallet-instances"
          (some (creation_parameters challenge key_attestation integrity.hardware_key_tag)))
    pure integrity.hardware_key_tag

  unfoldable pub revoke_wallet_instance : String → String → Async GenericErrorReason
  unfolding get_wallet_provider_client
  revoke_wallet_instance id base_url =
      get_wallet_provider_client base_url "put" "/wallet-instances/{id}/status" (
        some
          (record { body = obj (("status", Value.string "REVOKED") ∷ []); path = ("id", id) ∷ [] }))

  unfoldable pub get_wallet_instance_status : String → String → Async GenericErrorReason
  unfolding get_wallet_provider_client
  get_wallet_instance_status id base_url =
      get_wallet_provider_client base_url "get" "/wallet-instances/{id}/status"
        (some (record { body = Value.undefined; path = ("id", id) ∷ [] }))
