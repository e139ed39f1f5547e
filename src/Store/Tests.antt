-- ===== src/Store/Tests.antt =====
-- Runs of the store.
use io_react_native_wallet_i.Base.{◌≡◌, refl, inl, none, some, List, [], ◌∷◌, if◌then◌else◌}
use io_react_native_wallet_i.Value.{Value}
use io_react_native_wallet_i.Store.{
  Action, session_reset, session_set, get_credential, get_attestation, pending, fulfilled, rejected,
  mdl, CredentialResult, PidFlowParams, PidResult, spid, loading, failed, done, continue_pid_flow,
  at_method,
}
use io_react_native_wallet_i.Store.Slices.{credential_reducer}
use io_react_native_wallet_i.Store.Pid.{pid_reducer, pid_initial, redirect_method}
use io_react_native_wallet_i.Store.Root.{initial, root_reducer, dispatch_all}
use io_react_native_wallet_i.Store.Consistent.{IsConsistent, dispatch_all-IsConsistent}
use io_react_native_wallet_i.Store.Resets.{IsCleared, dispatch_all-IsCleared}
use io_react_native_wallet_i.Store.PidFlow.{
  continuing, same_method, pid_flow_fulfilled, pid_flow_rejected,
}
use io_react_native_wallet_i.Credential.Tests.{conf}

abbrev licence : CredentialResult
licence = record {
  credential = "jwt";
  parsed_credential = [];
  key_tag = "tag";
  credential_type = mdl;
}

abbrev obtained : List Action
obtained =
    session_set "token"
    ∷ get_attestation (pending tt)
    ∷ get_attestation (fulfilled tt "wia")
    ∷ get_credential (pending mdl)
    ∷ get_credential (fulfilled mdl licence)
    ∷ []

dispatch_all-IsConsistent_example : IsConsistent (dispatch_all initial obtained)
dispatch_all-IsConsistent_example = dispatch_all-IsConsistent obtained

dispatch_all-IsCleared_example : IsCleared (
    dispatch_all
      (dispatch_all initial obtained)
      (session_reset ∷ get_credential (rejected mdl Value.null) ∷ []))
dispatch_all-IsCleared_example =
    dispatch_all-IsCleared (dispatch_all initial obtained) session_reset
      (get_credential (rejected mdl Value.null) ∷ []) (inl refl) (refl, tt)

-- A credential that was asked for before a logout is stored after it.
late_credential :
    (dispatch_all initial (
      get_credential (pending mdl)
      ∷ session_reset
      ∷ get_credential (fulfilled mdl licence)
      ∷ [])).credential.credentials.of_mdl
    ≡ some licence
unfolding dispatch_all root_reducer credential_reducer
late_credential = refl

abbrev params : PidFlowParams
params = record {
  auth_url = "https://idp";
  issuer_conf = conf;
  client_id = some "k";
  code_verifier = "verifier";
  wallet_instance_attestation = "wia";
  credential_definition = record {
    credential_configuration_id = "PersonIdentificationData";
    format = "vc+sd-jwt";
    type = "openid_credential";
  };
  redirect_uri = "app://";
  cie_pin = none;
}

abbrev pid : PidResult
pid = record { credential = "jwt"; parsed_credential = []; key_tag = "tag" }

pid_flow_fulfilled_example :
    let after =
      pid_reducer
        (continuing spid params "app://" pid_initial)
        (continue_pid_flow (fulfilled "app://" pid)) in
    (after.pid ≡ some pid)
    × (after.pid_flow_params ≡ none)
    × (at_method spid after.pid_async_status ≡ done)
pid_flow_fulfilled_example = pid_flow_fulfilled pid_initial spid params "app://" pid (inl refl) refl

-- The url of this login by SPID contains "cie", and the login goes on loading.
pid_flow_rejected_example :
    let after =
      pid_reducer
        (continuing spid params "app://?code=cie" pid_initial)
        (continue_pid_flow (rejected "app://?code=cie" Value.null)) in
    (after.pid_flow_params ≡ none)
    × (at_method spid after.pid_async_status ≡ (
        if same_method (redirect_method "app://?code=cie") spid
        then failed Value.null
        else loading))
pid_flow_rejected_example =
    pid_flow_rejected pid_initial spid params "app://?code=cie" Value.null (inl refl) refl
