-- ===== src/Store/Slices.antt =====
-- The reducers of example/src/store/reducers, but for the PID's: session, environment, debug,
-- instance, attestation and credential. An action that a slice has no case for leaves its state.
use io_react_native_wallet_i.Base.{
  String, Bool, true, false, not, Option, none, some, contains, filter,
}
use io_react_native_wallet_i.Base.Dict.{Dict, from_entries}
use io_react_native_wallet_i.Value.{Value}
use io_react_native_wallet_i.Store.{
  AsyncStatus, async_status_initial, done, loading, failed, no_error, failure, EnvType, prod,
  PerCredential, all_credentials, put, CredentialResult, StatusOutput, TrustmarkOutput, Action,
  pending, fulfilled, rejected, session_set, session_reset, instance_reset, attestation_reset,
  credential_reset, trustmark_reset, env_reset, env_set, set_debug_visibility, set_debug_data,
  reset_debug_data, create_wallet_instance, revoke_wallet_instance, get_attestation, get_credential,
  get_status_attestation, get_trustmark,
}

pub record SessionState : Type 0 where
  pub io_auth_token : Option String

unfoldable pub session_reducer : SessionState → Action → SessionState
session_reducer s (session_set token) = record { io_auth_token = some token }
session_reducer s session_reset = record { io_auth_token = none }
session_reducer s _ = s

pub record EnvironmentState : Type 0 where
  pub env : EnvType

unfoldable pub environment_reducer : EnvironmentState → Action → EnvironmentState
environment_reducer s (env_set env) = record { env = env }
environment_reducer s env_reset = record { env = prod }
environment_reducer s _ = s

pub record DebugState : Type 0 where
  pub debug_data : Dict Value
  pub is_visible : Bool

unfoldable pub debug_reducer : DebugState → Action → DebugState
debug_reducer s (set_debug_visibility b) = record s { is_visible = b }
debug_reducer s (set_debug_data d) = record s { debug_data = d }
debug_reducer s (reset_debug_data names) = record s {
  debug_data = from_entries (filter (λ e. not (contains names e.0)) s.debug_data);
}
debug_reducer s _ = s

pub record InstanceState : Type 0 where
  pub key_tag : Option String
  pub async_status : AsyncStatus
  pub revocation_async_status : AsyncStatus

abbrev pub instance_initial : InstanceState
instance_initial = record {
  key_tag = none;
  async_status = async_status_initial;
  revocation_async_status = async_status_initial;
}

unfoldable pub instance_reducer : InstanceState → Action → InstanceState
instance_reducer s instance_reset = instance_initial
instance_reducer s session_reset = instance_initial
instance_reducer s (create_wallet_instance (fulfilled _ tag)) = record s {
  key_tag = some tag;
  async_status = record { is_done = true; is_loading = false; has_error = no_error };
}
instance_reducer s (create_wallet_instance (pending _)) = record s {
  async_status = record { is_done = false; is_loading = true; has_error = no_error };
}
instance_reducer s (create_wallet_instance (rejected _ e)) = record s {
  async_status = record { is_done = false; is_loading = false; has_error = failure e };
}
instance_reducer s (revoke_wallet_instance (fulfilled _ _)) = record s {
  revocation_async_status = record { is_done = true; is_loading = false; has_error = no_error };
}
instance_reducer s (revoke_wallet_instance (pending _)) = record s {
  revocation_async_status = record { is_done = false; is_loading = true; has_error = no_error };
}
instance_reducer s (revoke_wallet_instance (rejected _ e)) = record s {
  revocation_async_status = record { is_done = false; is_loading = false; has_error = failure e };
}
instance_reducer s _ = s

pub record AttestationState : Type 0 where
  pub attestation : Option String
  pub async_status : AsyncStatus

abbrev pub attestation_initial : AttestationState
attestation_initial = record { attestation = none; async_status = async_status_initial }

-- A rejected thunk leaves the attestation that is there.
unfoldable pub attestation_reducer : AttestationState → Action → AttestationState
attestation_reducer s attestation_reset = attestation_initial
attestation_reducer s instance_reset = attestation_initial
attestation_reducer s session_reset = attestation_initial
attestation_reducer s (get_attestation (fulfilled _ a)) = record {
  attestation = some a;
  async_status = record { is_done = true; is_loading = false; has_error = no_error };
}
attestation_reducer s (get_attestation (pending _)) = record s {
  async_status = record { is_done = false; is_loading = true; has_error = no_error };
}
attestation_reducer s (get_attestation (rejected _ e)) = record s {
  async_status = record { is_done = false; is_loading = false; has_error = failure e };
}
attestation_reducer s _ = s

pub record CredentialState : Type 0 where
  pub credentials : PerCredential (Option CredentialResult)
  pub credentials_async_status : PerCredential AsyncStatus
  pub status_attestation : PerCredential (Option StatusOutput)
  pub status_att_async_status : PerCredential AsyncStatus
  pub trustmark : PerCredential (Option TrustmarkOutput)
  pub trustmark_async_status : PerCredential AsyncStatus

abbrev pub credential_initial : CredentialState
credential_initial = record {
  credentials = all_credentials none;
  credentials_async_status = all_credentials async_status_initial;
  status_attestation = all_credentials none;
  status_att_async_status = all_credentials async_status_initial;
  trustmark = all_credentials none;
  trustmark_async_status = all_credentials async_status_initial;
}

-- The case of `fulfilled` goes by the type of the payload, the others by that of the argument.
unfoldable pub credential_reducer : CredentialState → Action → CredentialState
credential_reducer s credential_reset = credential_initial
credential_reducer s (trustmark_reset t) = record s { trustmark = put t none s.trustmark }
credential_reducer s (get_credential (fulfilled _ r)) = record s {
  credentials = put r.credential_type (some r) s.credentials;
  credentials_async_status = put r.credential_type done s.credentials_async_status;
}
credential_reducer s (get_credential (pending t)) = record s {
  credentials_async_status = put t loading s.credentials_async_status;
}
credential_reducer s (get_credential (rejected t e)) = record s {
  credentials_async_status = put t (failed e) s.credentials_async_status;
}
credential_reducer s (get_status_attestation (fulfilled _ r)) = record s {
  status_attestation = put r.credential_type (some r) s.status_attestation;
  status_att_async_status = put r.credential_type done s.status_att_async_status;
}
credential_reducer s (get_status_attestation (pending t)) = record s {
  status_att_async_status = put t loading s.status_att_async_status;
}
credential_reducer s (get_status_attestation (rejected t e)) = record s {
  status_att_async_status = put t (failed e) s.status_att_async_status;
}
credential_reducer s (get_trustmark (fulfilled _ r)) = record s {
  trustmark = put r.credential_type (some r) s.trustmark;
  trustmark_async_status = put r.credential_type done s.trustmark_async_status;
}
credential_reducer s (get_trustmark (pending t)) = record s {
  trustmark_async_status = put t loading s.trustmark_async_status;
}
credential_reducer s (get_trustmark (rejected t e)) = record s {
  trustmark_async_status = put t (failed e) s.trustmark_async_status;
}
credential_reducer s instance_reset = credential_initial
credential_reducer s session_reset = credential_initial
credential_reducer s _ = s
