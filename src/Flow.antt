-- ===== src/Flow.antt =====
-- The flows of the example app, example/src/utils/credential.ts: each composes the steps of the
-- issuance. A context is asked for right before the step that uses it, which is when the key store
-- answers.
pub mod Grows
pub mod Bound
pub mod Tests
use io_react_native_wallet_i.Base.{String, Bool, true, false, Option}
use io_react_native_wallet_i.Base.Dict.{Dict}
use io_react_native_wallet_i.Host.{Host, CryptoContext}
use io_react_native_wallet_i.Errors.{Error}
use io_react_native_wallet_i.Errors.Result.{Result, ok}
use io_react_native_wallet_i.Promise.{Async, lift, pure, draw_uuid, generate_key}
use io_react_native_wallet_i.Promise.Sequence.{◌>>=◌}
use io_react_native_wallet_i.Keys.{
  LiveContext, create_crypto_context_for, regenerate_crypto_key, dpop_keytag,
}
use io_react_native_wallet_i.Trust.Entities.{IssuerMetadata}
use io_react_native_wallet_i.Credential.Issuer.{evaluate_issuer_trust}
use io_react_native_wallet_i.Credential.Authorize.{
  start_user_authorization, build_authorization_url, complete_user_authorization_with_query_mode,
  get_requested_credential_to_be_presented, complete_user_authorization_with_form_post_jwt_mode,
}
use io_react_native_wallet_i.Credential.Access.{AccessRequest, authorize_access}
use io_react_native_wallet_i.Credential.Obtain.{AuthorizationDetail, obtain_credential}
use io_react_native_wallet_i.Credential.Parse.{Attribute, verify_and_parse_credential}
use io_react_native_wallet_i.Credential.Status.{
  status_attestation, verify_and_parse_status_attestation,
}
use io_react_native_wallet_i.Store.{
  CredentialType, mdl, european_disability_card, european_health_insurance_card, PidResult,
  CredentialResult, StatusOutput,
}

-- The text of a credential type.
abbrev pub type_name : CredentialType → String
type_name mdl = "MDL"
type_name european_disability_card = "EuropeanDisabilityCard"
type_name european_health_insurance_card = "EuropeanHealthInsuranceCard"

-- The context of a key as it is now.
abbrev pub live : LiveContext → Async CryptoContext
live ctx w = (ok (ctx w.key_calls), w)

pub record FlowInput : Type 0 where
  pub issuer_url : String
  pub redirect_uri : String
  pub wallet_instance_attestation : String

-- What is known once the authorization is complete.
pub record Authorized : Type 0 where
  pub issuer_conf : IssuerMetadata
  pub code : String
  pub client_id : Option String
  pub code_verifier : String
  pub redirect_uri : String
  pub wallet_instance_attestation : String
  pub credential_definition : AuthorizationDetail

abbrev pub access_of : Authorized → AccessRequest
access_of a = record {
  code = a.code;
  client_id = a.client_id;
  redirect_uri = a.redirect_uri;
  code_verifier = a.code_verifier;
  wallet_instance_attestation = a.wallet_instance_attestation;
}

module _ (H : Host) where
  -- `uuidv4().toString()`, and a key of that tag.
  unfoldable pub new_credential_key : Async String
  new_credential_key = do key_tag ← draw_uuid H; _ ← generate_key H key_tag; pure key_tag

  -- From the code to the credential, the same in every flow: a DPoP key, the access token, the
  -- credential, and its attributes.
  unfoldable pub obtain_and_parse :
      Authorized → LiveContext → String → Bool → Async (String × Dict Attribute)
  obtain_and_parse a wia_ctx key_tag ignore_missing = do
    _ ← regenerate_crypto_key H dpop_keytag
    wia ← live wia_ctx
    dpop ← live (create_crypto_context_for H dpop_keytag)
    token ← authorize_access H a.issuer_conf (access_of a) wia dpop
    ctx ← live (create_crypto_context_for H key_tag)
    response ← obtain_credential H a.issuer_conf token a.client_id a.credential_definition dpop ctx
    verified ← lift (
        verify_and_parse_credential H a.issuer_conf response.credential response.format ctx
          ignore_missing false)
    pure (response.credential, verified.parsed_credential)

  -- `open_url` is `openUrlAndListenForAuthRedirect`.
  unfoldable pub authorize_pid :
      (String → String → Async String) → FlowInput → String → LiveContext → Async Authorized
  authorize_pid open_url input idp_hint wia_ctx = do
    conf ← evaluate_issuer_trust H input.issuer_url
    wia ← live wia_ctx
    u ←
        start_user_authorization H conf "PersonIdentificationData" wia
          input.wallet_instance_attestation input.redirect_uri
    url ←
        open_url input.redirect_uri
          (build_authorization_url H u.issuer_request_uri u.client_id conf idp_hint)
    result ← lift (complete_user_authorization_with_query_mode H url)
    pure (record {
      issuer_conf = conf;
      code = result.code;
      client_id = u.client_id;
      code_verifier = u.code_verifier;
      redirect_uri = input.redirect_uri;
      wallet_instance_attestation = input.wallet_instance_attestation;
      credential_definition = u.credential_definition;
    })

  unfoldable pub get_pid_cie_id :
      (String → String → Async String) → FlowInput → String → LiveContext → Async PidResult
  get_pid_cie_id open_url input idp_hint wia_ctx = do
    key_tag ← new_credential_key
    a ← authorize_pid open_url input idp_hint wia_ctx
    obtained ← obtain_and_parse a wia_ctx key_tag false
    pure (record { credential = obtained.0; parsed_credential = obtained.1; key_tag = key_tag })

  unfoldable pub authorize_credential :
      FlowInput
      → CredentialType
      → (pid : String) → (wia_ctx pid_ctx : LiveContext) → Async Authorized
  authorize_credential input type pid wia_ctx pid_ctx = do
    conf ← evaluate_issuer_trust H input.issuer_url
    wia ← live wia_ctx
    u ←
        start_user_authorization H conf (type_name type) wia input.wallet_instance_attestation
          input.redirect_uri
    object ← get_requested_credential_to_be_presented H u.issuer_request_uri u.client_id conf
    holder ← live pid_ctx
    result ←
        complete_user_authorization_with_form_post_jwt_mode H object wia holder pid
          input.wallet_instance_attestation
    pure (record {
      issuer_conf = conf;
      code = result.code;
      client_id = u.client_id;
      code_verifier = u.code_verifier;
      redirect_uri = input.redirect_uri;
      wallet_instance_attestation = input.wallet_instance_attestation;
      credential_definition = u.credential_definition;
    })

  -- Missing attributes are ignored.
  unfoldable pub get_credential :
      FlowInput
      → CredentialType
      → (pid : String) → (wia_ctx pid_ctx : LiveContext) → Async CredentialResult
  get_credential input type pid wia_ctx pid_ctx = do
    key_tag ← new_credential_key
    a ← authorize_credential input type pid wia_ctx pid_ctx
    obtained ← obtain_and_parse a wia_ctx key_tag true
    pure (record {
      credential = obtained.0;
      parsed_credential = obtained.1;
      key_tag = key_tag;
      credential_type = type;
    })

  unfoldable pub get_credential_status_attestation :
      (Error → String)
      → String
      → (credential : String) → LiveContext
      → CredentialType
      → Async StatusOutput
  get_credential_status_attestation error_json issuer_url credential ctx type = do
    conf ← evaluate_issuer_trust H issuer_url
    holder ← live ctx
    token ← status_attestation H conf credential holder
    parsed ← lift (verify_and_parse_status_attestation H error_json conf token holder)
    pure (record {
      status_attestation = token;
      parsed_status_attestation = parsed;
      credential_type = type;
    })
