-- ===== src/Store/Pid.antt =====
-- The reducer of example/src/store/reducers/pid.ts.
use io_react_native_wallet_i.Base.{String, Option, none, some, includes, if◌then◌else◌}
use io_react_native_wallet_i.Store.{
  AsyncStatus, async_status_initial, done, loading, failed, PidAuthMethod, spid, cie_l3, PerMethod,
  all_methods, put_method, PidResult, PidFlowParams, Action, pending, fulfilled, rejected,
  session_reset, instance_reset, pid_reset, pid_ciel3_flow_reset, get_pid_cie_id, prepare_pid_flow,
  continue_pid_flow,
}

pub record PidState : Type 0 where
  pub pid : Option PidResult
  pub pid_async_status : PerMethod AsyncStatus
  pub pid_flow_params : Option PidFlowParams

abbrev pub pid_initial : PidState
pid_initial = record {
  pid = none;
  pid_async_status = all_methods async_status_initial;
  pid_flow_params = none;
}

-- The method that the cases of `continuePidFlowThunk` take the flow to have.
abbrev pub loading_method : PidState → PidAuthMethod
loading_method s = if s.pid_async_status.of_cie_l3.is_loading then cie_l3 else spid

abbrev pub redirect_method : String → PidAuthMethod
redirect_method auth_redirect_url = if includes auth_redirect_url "cie" then cie_l3 else spid

unfoldable pub pid_reducer : PidState → Action → PidState
pid_reducer s pid_reset = pid_initial
pid_reducer s pid_ciel3_flow_reset = record s {
  pid_flow_params = none;
  pid_async_status = record s.pid_async_status { of_cie_l3 = async_status_initial };
}
pid_reducer s (get_pid_cie_id (fulfilled m p)) = record s {
  pid = some p;
  pid_async_status = put_method m done s.pid_async_status;
}
pid_reducer s (get_pid_cie_id (pending m)) = record s {
  pid_async_status = put_method m loading s.pid_async_status;
}
pid_reducer s (get_pid_cie_id (rejected m e)) = record s {
  pid_async_status = put_method m (failed e) s.pid_async_status;
}
pid_reducer s (prepare_pid_flow (fulfilled m p)) = record s { pid_flow_params = some p }
pid_reducer s (prepare_pid_flow (pending m)) = record s {
  pid_async_status = put_method m loading s.pid_async_status;
}
pid_reducer s (prepare_pid_flow (rejected m e)) = record {
  pid = s.pid;
  pid_flow_params = none;
  pid_async_status = put_method m (failed e) s.pid_async_status;
}
pid_reducer s (continue_pid_flow (fulfilled url p)) = record {
  pid = some p;
  pid_flow_params = none;
  pid_async_status = put_method (loading_method s) done s.pid_async_status;
}
pid_reducer s (continue_pid_flow (pending url)) = record s {
  pid_async_status = put_method (loading_method s) loading s.pid_async_status;
}
pid_reducer s (continue_pid_flow (rejected url e)) = record {
  pid = s.pid;
  pid_flow_params = none;
  pid_async_status = put_method (redirect_method url) (failed e) s.pid_async_status;
}
pid_reducer s instance_reset = pid_initial
pid_reducer s session_reset = pid_initial
pid_reducer s _ = s
