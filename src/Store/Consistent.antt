-- ===== src/Store/Consistent.antt =====
-- What every reachable state of the store has.
use io_react_native_wallet_i.Base.{Option, some, List, [], ◌∷◌}
use io_react_native_wallet_i.Store.{
  spid, cie_l2, cie_l3, async_status_initial, all_methods, Action, pending, fulfilled, rejected,
  session_reset, instance_reset, attestation_reset, pid_reset, pid_ciel3_flow_reset,
  create_wallet_instance, revoke_wallet_instance, get_attestation, get_pid_cie_id, prepare_pid_flow,
  continue_pid_flow,
}
use io_react_native_wallet_i.Store.Tracked.{
  IsTracked, idle, is_done, is_loading, is_failed, IsTracked-some, MethodsTracked,
  put-MethodsTracked,
}
use io_react_native_wallet_i.Store.Kept.{IsKept, initial-IsKept, credential-IsKept}
use io_react_native_wallet_i.Store.Slices.{
  InstanceState, instance_reducer, AttestationState, attestation_reducer,
}
use io_react_native_wallet_i.Store.Pid.{PidState, pid_reducer, loading_method, redirect_method}
use io_react_native_wallet_i.Store.Root.{RootState, initial, root_reducer, dispatch_all}

attestation-IsTracked :
    (s : AttestationState) (a : Action)
    → IsTracked s.attestation s.async_status
    → IsTracked (attestation_reducer s a).attestation (attestation_reducer s a).async_status
unfolding attestation_reducer
attestation-IsTracked s attestation_reset h = idle
attestation-IsTracked s instance_reset h = idle
attestation-IsTracked s session_reset h = idle
attestation-IsTracked s (get_attestation (fulfilled _ _)) h = is_done
attestation-IsTracked s (get_attestation (pending _)) h = is_loading
attestation-IsTracked s (get_attestation (rejected _ _)) h = is_failed
attestation-IsTracked s _ h = h

instance-IsTracked :
    (s : InstanceState) (a : Action)
    → IsTracked s.key_tag s.async_status
    → IsTracked (instance_reducer s a).key_tag (instance_reducer s a).async_status
unfolding instance_reducer
instance-IsTracked s instance_reset h = idle
instance-IsTracked s session_reset h = idle
instance-IsTracked s (create_wallet_instance (fulfilled _ _)) h = is_done
instance-IsTracked s (create_wallet_instance (pending _)) h = is_loading
instance-IsTracked s (create_wallet_instance (rejected _ _)) h = is_failed
instance-IsTracked s (revoke_wallet_instance (fulfilled _ _)) h = h
instance-IsTracked s (revoke_wallet_instance (pending _)) h = h
instance-IsTracked s (revoke_wallet_instance (rejected _ _)) h = h
instance-IsTracked s _ h = h

revocation-IsTracked :
    (s : InstanceState) (a : Action)
    → IsTracked (some tt) s.revocation_async_status
    → IsTracked (some tt) (instance_reducer s a).revocation_async_status
unfolding instance_reducer
revocation-IsTracked s instance_reset h = idle
revocation-IsTracked s session_reset h = idle
revocation-IsTracked s (create_wallet_instance (fulfilled _ _)) h = h
revocation-IsTracked s (create_wallet_instance (pending _)) h = h
revocation-IsTracked s (create_wallet_instance (rejected _ _)) h = h
revocation-IsTracked s (revoke_wallet_instance (fulfilled _ _)) h = is_done
revocation-IsTracked s (revoke_wallet_instance (pending _)) h = is_loading
revocation-IsTracked s (revoke_wallet_instance (rejected _ _)) h = is_failed
revocation-IsTracked s _ h = h

initial-MethodsTracked :
    {A : Type 0} {o : Option A} → MethodsTracked o (all_methods async_status_initial)
initial-MethodsTracked spid = idle
initial-MethodsTracked cie_l2 = idle
initial-MethodsTracked cie_l3 = idle

pid-MethodsTracked :
    (s : PidState) (a : Action)
    → MethodsTracked s.pid s.pid_async_status
    → MethodsTracked (pid_reducer s a).pid (pid_reducer s a).pid_async_status
unfolding pid_reducer
pid-MethodsTracked s pid_reset h = initial-MethodsTracked
pid-MethodsTracked s instance_reset h = initial-MethodsTracked
pid-MethodsTracked s session_reset h = initial-MethodsTracked
pid-MethodsTracked s pid_ciel3_flow_reset h = put-MethodsTracked cie_l3 h idle
pid-MethodsTracked s (get_pid_cie_id (fulfilled m p)) h =
    put-MethodsTracked m (λ n. IsTracked-some p (h n)) is_done
pid-MethodsTracked s (get_pid_cie_id (pending m)) h = put-MethodsTracked m h is_loading
pid-MethodsTracked s (get_pid_cie_id (rejected m e)) h = put-MethodsTracked m h is_failed
pid-MethodsTracked s (prepare_pid_flow (fulfilled m p)) h = h
pid-MethodsTracked s (prepare_pid_flow (pending m)) h = put-MethodsTracked m h is_loading
pid-MethodsTracked s (prepare_pid_flow (rejected m e)) h = put-MethodsTracked m h is_failed
pid-MethodsTracked s (continue_pid_flow (fulfilled url p)) h =
    put-MethodsTracked (loading_method s) (λ n. IsTracked-some p (h n)) is_done
pid-MethodsTracked s (continue_pid_flow (pending url)) h =
    put-MethodsTracked (loading_method s) h is_loading
pid-MethodsTracked s (continue_pid_flow (rejected url e)) h =
    put-MethodsTracked (redirect_method url) h is_failed
pid-MethodsTracked s _ h = h

-- What a state of the store has between two actions.
pub record IsConsistent (s : RootState) : Type 0 where
  pub instance_tracked : IsTracked s.instance_state.key_tag s.instance_state.async_status
  pub revocation_tracked : IsTracked (some tt) s.instance_state.revocation_async_status
  pub attestation_tracked : IsTracked s.attestation.attestation s.attestation.async_status
  pub credentials_kept : IsKept s.credential
  pub pid_tracked : MethodsTracked s.pid.pid s.pid.pid_async_status

root_reducer-IsConsistent :
    (s : RootState) (a : Action) → IsConsistent s → IsConsistent (root_reducer s a)
unfolding root_reducer
root_reducer-IsConsistent s a h = record {
  instance_tracked = instance-IsTracked s.instance_state a h.instance_tracked;
  revocation_tracked = revocation-IsTracked s.instance_state a h.revocation_tracked;
  attestation_tracked = attestation-IsTracked s.attestation a h.attestation_tracked;
  credentials_kept = credential-IsKept s.credential a h.credentials_kept;
  pid_tracked = pid-MethodsTracked s.pid a h.pid_tracked;
}

initial-IsConsistent : IsConsistent initial
initial-IsConsistent = record {
  instance_tracked = idle;
  revocation_tracked = idle;
  attestation_tracked = idle;
  credentials_kept = initial-IsKept;
  pid_tracked = initial-MethodsTracked;
}

dispatch_all_from :
    (s : RootState) (actions : List Action) → IsConsistent s → IsConsistent (dispatch_all s actions)
unfolding dispatch_all
dispatch_all_from s [] h = h
dispatch_all_from s (a ∷ actions) h =
    dispatch_all_from (root_reducer s a) actions (root_reducer-IsConsistent s a h)

-- After any actions from the initial state, every tracked operation is idle, done, loading or failed
-- and no two of these at once; where the instance, the attestation, a credential, its status
-- attestation or the PID is done, it is in the store; and a stored credential has the type under
-- which it stands.
pub dispatch_all-IsConsistent :
    (actions : List Action) → IsConsistent (dispatch_all initial actions)
dispatch_all-IsConsistent actions = dispatch_all_from initial actions initial-IsConsistent
