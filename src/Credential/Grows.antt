-- ===== src/Credential/Grows.antt =====
-- The steps of an issuance only add to what was sent, drawn and asked of the key store.
use io_react_native_wallet_i.Base.{String, ℕ, zero, suc, Option}
use io_react_native_wallet_i.Value.{Value}
use io_react_native_wallet_i.Host.{Host, CryptoContext, Request}
use io_react_native_wallet_i.Promise.Grows.{Grows, growing}
use io_react_native_wallet_i.Random.{generate_random_alpha_numeric_string}
use io_react_native_wallet_i.Par.{ParRequest, make_par_request, sign_and_push, push_request}
use io_react_native_wallet_i.Presentation.{RequestObject}
use io_react_native_wallet_i.Trust.Entities.{IssuerMetadata}
use io_react_native_wallet_i.Trust.Chain.{
  get_signed_entity_configuration, fetch_and_parse_entity_configuration,
}
use io_react_native_wallet_i.Credential.Access.{AccessRequest, authorize_access}
use io_react_native_wallet_i.Credential.Issuer.{evaluate_issuer_trust}
use io_react_native_wallet_i.Credential.Authorize.{
  start_user_authorization, push_authorization, get_requested_credential_to_be_presented,
  post_response, read_form_post, complete_user_authorization_with_form_post_jwt_mode,
}
use io_react_native_wallet_i.Credential.Obtain.{
  AuthorizationDetail, TokenResponse, fetch_json, obtain_credential,
}

module _ (H : Host) where
  generate_random-Grows : (size : ℕ) → Grows (generate_random_alpha_numeric_string H size)
  unfolding generate_random_alpha_numeric_string
  generate_random-Grows zero = search (growing)
  generate_random-Grows (suc size) = search (growing, generate_random-Grows size)

  make_par_request-Grows : (ctx : CryptoContext) (p : ParRequest) → Grows (make_par_request H ctx p)
  unfolding make_par_request sign_and_push push_request
  make_par_request-Grows ctx p = search (growing, generate_random-Grows) depth 24

  pub start_user_authorization-Grows :
      (conf : IssuerMetadata) (type : String) (ctx : CryptoContext)
      (attestation redirect_uri : String)
      → Grows (start_user_authorization H conf type ctx attestation redirect_uri)
  unfolding start_user_authorization push_authorization
  start_user_authorization-Grows conf type ctx attestation redirect_uri =
      search (growing, generate_random-Grows, make_par_request-Grows) depth 24

  pub evaluate_issuer_trust-Grows : (url : String) → Grows (evaluate_issuer_trust H url)
  unfolding evaluate_issuer_trust fetch_and_parse_entity_configuration
      get_signed_entity_configuration
  evaluate_issuer_trust-Grows url = search growing depth 24

  pub get_requested_credential-Grows :
      (uri : Value) (client_id : Option String) (conf : IssuerMetadata)
      → Grows (get_requested_credential_to_be_presented H uri client_id conf)
  unfolding get_requested_credential_to_be_presented
  get_requested_credential-Grows uri client_id conf = search growing depth 24

  pub complete_user_authorization-Grows :
      (object : RequestObject) (wia_ctx pid_ctx : CryptoContext) (pid attestation : String)
      → Grows (
          complete_user_authorization_with_form_post_jwt_mode H object wia_ctx pid_ctx pid
            attestation)
  unfolding complete_user_authorization_with_form_post_jwt_mode post_response read_form_post
  complete_user_authorization-Grows object wia_ctx pid_ctx pid attestation = search growing depth 32

  pub authorize_access-Grows :
      (conf : IssuerMetadata) (a : AccessRequest) (wia_ctx dpop_ctx : CryptoContext)
      → Grows (authorize_access H conf a wia_ctx dpop_ctx)
  unfolding authorize_access
  authorize_access-Grows conf a wia_ctx dpop_ctx = search growing depth 32

  pub fetch_json-Grows : (n : ℕ) (request : Request) → Grows (fetch_json H n request)
  fetch_json-Grows n request = search growing depth 24

  pub obtain_credential-Grows :
      (conf : IssuerMetadata) (token : TokenResponse) (client_id : Option String)
      (definition : AuthorizationDetail) (dpop_ctx credential_ctx : CryptoContext)
      → Grows (obtain_credential H conf token client_id definition dpop_ctx credential_ctx)
  unfolding obtain_credential
  obtain_credential-Grows conf token client_id definition dpop_ctx credential_ctx =
      search (growing, fetch_json-Grows) depth 32
