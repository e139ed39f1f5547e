-- ===== src/Store/Root.antt =====
-- The reducer of the whole store, example/src/store/store.ts, and its runs.
use io_react_native_wallet_i.Base.{List, [], ◌∷◌, none, false}
use io_react_native_wallet_i.Store.{Action, prod}
use io_react_native_wallet_i.Store.Slices.{
  SessionState, session_reducer, EnvironmentState, environment_reducer, DebugState, debug_reducer,
  InstanceState, instance_initial, instance_reducer, AttestationState, attestation_initial,
  attestation_reducer, CredentialState, credential_initial, credential_reducer,
}
use io_react_native_wallet_i.Store.Pid.{PidState, pid_initial, pid_reducer}

pub record RootState : Type 0 where
  pub environment : EnvironmentState
  pub debug : DebugState
  pub session : SessionState
  pub instance_state : InstanceState
  pub attestation : AttestationState
  pub credential : CredentialState
  pub pid : PidState

abbrev pub initial : RootState
initial = record {
  environment = record { env = prod };
  debug = record { debug_data = []; is_visible = false };
  session = record { io_auth_token = none };
  instance_state = instance_initial;
  attestation = attestation_initial;
  credential = credential_initial;
  pid = pid_initial;
}

unfoldable pub root_reducer : RootState → Action → RootState
root_reducer s a = record {
  environment = environment_reducer s.environment a;
  debug = debug_reducer s.debug a;
  session = session_reducer s.session a;
  instance_state = instance_reducer s.instance_state a;
  attestation = attestation_reducer s.attestation a;
  credential = credential_reducer s.credential a;
  pid = pid_reducer s.pid a;
}

-- The state after the actions were dispatched in order.
unfoldable pub dispatch_all : RootState → List Action → RootState
dispatch_all s [] = s
dispatch_all s (a ∷ actions) = dispatch_all (root_reducer s a) actions
