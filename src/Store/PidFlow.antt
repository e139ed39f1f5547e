-- ===== src/Store/PidFlow.antt =====
-- The PID flow of the webview, `preparePidFlowParamsThunk` and `continuePidFlowThunk`, in the reducer
-- of example/src/store/reducers/pid.ts.
use io_react_native_wallet_i.Base.{
  ◌≡◌, refl, ◌⊎◌, inl, inr, Bool, true, false, none, some, String, includes, if◌then◌else◌,
  Bool-cases,
}
use io_react_native_wallet_i.Value.{Value}
use io_react_native_wallet_i.Store.{
  pending, fulfilled, rejected, PidFlowParams, PidResult, PidAuthMethod, cie_l2, prepare_pid_flow,
  continue_pid_flow, loading, failed, done, spid, cie_l3, at_method,
}
use io_react_native_wallet_i.Store.Pid.{PidState, pid_reducer, redirect_method}

-- The preparation for a method, and the start of the continuation.
abbrev pub continuing : PidAuthMethod → PidFlowParams → String → PidState → PidState
continuing m params url s =
    pid_reducer
      (pid_reducer (pid_reducer s (prepare_pid_flow (pending m)))
        (prepare_pid_flow (fulfilled m params)))
      (continue_pid_flow (pending url))

-- From a state in which the login by CIE L3 is not loading, a PID flow by SPID or by CIE L3 that was
-- prepared and continued ends with the PID in the store, no parameters left and the method of the
-- flow done.
pub pid_flow_fulfilled :
    (s : PidState) (m : PidAuthMethod) (params : PidFlowParams) (url : String) (p : PidResult)
    → (m ≡ spid) ⊎ (m ≡ cie_l3)
    → s.pid_async_status.of_cie_l3.is_loading ≡ false
    → let after = pid_reducer (continuing m params url s) (continue_pid_flow (fulfilled url p)) in
      (after.pid ≡ some p)
      × (after.pid_flow_params ≡ none)
      × (at_method m after.pid_async_status ≡ done)
unfolding pid_reducer
pid_flow_fulfilled s m params url p (inl e) h = rw (e, h) (refl, refl, refl)
pid_flow_fulfilled s m params url p (inr e) h = rw e (refl, refl, refl)

abbrev pub same_method : PidAuthMethod → PidAuthMethod → Bool
same_method spid spid = true
same_method cie_l2 cie_l2 = true
same_method cie_l3 cie_l3 = true
same_method _ _ = false

-- From a state in which the login by CIE L3 is not loading, a PID flow by SPID or by CIE L3 that was
-- prepared and continued and is then rejected has no parameters left. Its method is failed if it is
-- the one that the redirect url stands for, which is CIE L3 exactly if the url contains "cie", and
-- otherwise it goes on loading.
pub pid_flow_rejected :
    (s : PidState) (m : PidAuthMethod) (params : PidFlowParams) (url : String) (e : Value)
    → (m ≡ spid) ⊎ (m ≡ cie_l3)
    → s.pid_async_status.of_cie_l3.is_loading ≡ false
    → let after = pid_reducer (continuing m params url s) (continue_pid_flow (rejected url e)) in
      (after.pid_flow_params ≡ none)
      × (at_method m after.pid_async_status
          ≡ (if same_method (redirect_method url) m then failed e else loading))
unfolding pid_reducer
pid_flow_rejected s m params url e (inl same) h = elim (Bool-cases (includes url "cie")) [
  | inl cie ↦ rw (same, h, cie) (refl, refl)
  | inr other ↦ rw (same, h, other) (refl, refl)
]
pid_flow_rejected s m params url e (inr same) h = elim (Bool-cases (includes url "cie")) [
  | inl cie ↦ rw (same, cie) (refl, refl)
  | inr other ↦ rw (same, other) (refl, refl)
]
