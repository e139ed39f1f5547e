-- ===== src/Thunks/Login.antt =====
-- The thunks of the login for a PID: example/src/thunks/pid.ts and pidCieID.ts.
use io_react_native_wallet_i.Base.{ℕ, String, false, Option, none, some, includes, if◌then◌else◌}
use io_react_native_wallet_i.Host.{Host}
use io_react_native_wallet_i.Errors.{foreign}
use io_react_native_wallet_i.Errors.Result.{ok, err}
use io_react_native_wallet_i.Promise.{World, Async, lift}
use io_react_native_wallet_i.Promise
use io_react_native_wallet_i.Keys.{create_crypto_context_for, wia_keytag}
use io_react_native_wallet_i.Provider.{Generated}
use io_react_native_wallet_i.Integrity.{Platform, NativeIntegrity}
use io_react_native_wallet_i.Credential.Issuer.{evaluate_issuer_trust}
use io_react_native_wallet_i.Credential.Authorize.{
  start_user_authorization, build_authorization_url, complete_user_authorization_with_query_mode,
}
use io_react_native_wallet_i.Store.{credential_reset, PidResult, PidFlowParams}
use io_react_native_wallet_i.Flow.{live, new_credential_key, obtain_and_parse, get_pid_cie_id}
use io_react_native_wallet_i.Thunks.{
  get_env, Environments, Thunk, ◌>>=◌, run, get_state, dispatch, Toolkit, ensure_attestation,
}

module _ (T : Toolkit) (H : Host) (G : Generated) (N : NativeIntegrity) (platform : Platform)
    (vars : Environments) (now : ℕ) where
  unfoldable pub get_pid_cie_id_thunk :
      (String → String → Async String) → (idp_hint : String) → Thunk PidResult
  get_pid_cie_id_thunk open_url idp_hint = do
    attestation ← ensure_attestation T H G N platform vars now
    state ← get_state
    _ ← dispatch credential_reset
    run (
        get_pid_cie_id H open_url
          (record {
            issuer_url = (get_env vars state.environment.env).wallet_pid_provider_base_url;
            redirect_uri = (get_env vars state.environment.env).redirect_uri;
            wallet_instance_attestation = attestation;
          })
          idp_hint (create_crypto_context_for H wia_keytag))

  abbrev pub redirect_uri_of : (idp_hint redirect_uri : String) → String
  redirect_uri_of idp_hint redirect_uri =
      if includes "servizicie" idp_hint then "https://cie.callback" else redirect_uri

  unfoldable pub prepare_pid_flow_thunk :
      (idp_hint : String) (cie_pin : Option String) → Thunk PidFlowParams
  prepare_pid_flow_thunk idp_hint cie_pin = do
    attestation ← ensure_attestation T H G N platform vars now
    _ ← dispatch credential_reset
    state ← get_state
    conf ←
        run (
          evaluate_issuer_trust H (get_env vars state.environment.env).wallet_pid_provider_base_url)
    ctx ← run (live (create_crypto_context_for H wia_keytag))
    u ← run (
        start_user_authorization H conf "PersonIdentificationData" ctx attestation
          (redirect_uri_of idp_hint (get_env vars state.environment.env).redirect_uri))
    run (
        Promise.pure (record {
          auth_url = build_authorization_url H u.issuer_request_uri u.client_id conf idp_hint;
          issuer_conf = conf;
          client_id = u.client_id;
          code_verifier = u.code_verifier;
          wallet_instance_attestation = attestation;
          credential_definition = u.credential_definition;
          redirect_uri = redirect_uri_of idp_hint (get_env vars state.environment.env).redirect_uri;
          cie_pin = cie_pin;
        }))

  abbrev pub required_params : Option PidFlowParams → Thunk PidFlowParams
  required_params none s = (err (foreign "Flow params not found"), s)
  required_params (some params) s = (ok params, s)

  unfoldable pub continue_pid_flow_thunk : (auth_redirect_url : String) → Thunk PidResult
  continue_pid_flow_thunk auth_redirect_url = do
    state ← get_state
    params ← required_params state.pid.pid_flow_params
    result ← run (lift (complete_user_authorization_with_query_mode H auth_redirect_url))
    key_tag ← run (new_credential_key H)
    obtained ← run (
        obtain_and_parse H
          (record {
            issuer_conf = params.issuer_conf;
            code = result.code;
            client_id = params.client_id;
            code_verifier = params.code_verifier;
            redirect_uri = params.redirect_uri;
            wallet_instance_attestation = params.wallet_instance_attestation;
            credential_definition = params.credential_definition;
          })
          (create_crypto_context_for H wia_keytag) key_tag false)
    run (
        Promise.pure
          (record { credential = obtained.0; parsed_credential = obtained.1; key_tag = key_tag }))
