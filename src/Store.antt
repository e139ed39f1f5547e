-- ===== src/Store.antt =====
-- The store of the example app: the types of example/src/store/types.ts, the actions of its slices and
-- thunks, and the state of each slice with its initial value (example/src/store/reducers).
pub mod Slices
pub mod Pid
pub mod Root
pub mod Tracked
pub mod Kept
pub mod Consistent
pub mod Resets
pub mod PidFlow
mod Tests
use io_react_native_wallet_i.Base.{String, Bool, true, false, Option, none, List, []}
use io_react_native_wallet_i.Base.Dict.{Dict}
use io_react_native_wallet_i.Value.{Value}
use io_react_native_wallet_i.Trust.Entities.{IssuerMetadata}
use io_react_native_wallet_i.Credential.Parse.{Attribute}
use io_react_native_wallet_i.Credential.Obtain.{AuthorizationDetail}
use io_react_native_wallet_i.Credential.Status.{ParsedStatusAttestation}

-- `hasError`, with the serialized error as a value.
pub data HasError : Type 0 where
  no_error : HasError
  failure : Value → HasError

pub record AsyncStatus : Type 0 where
  pub is_done : Bool
  pub is_loading : Bool
  pub has_error : HasError

abbrev pub async_status_initial : AsyncStatus
async_status_initial = record { is_done = false; is_loading = false; has_error = no_error }

-- `{ ...asyncStatusInitial, isDone: true }`, and the like.
abbrev pub done : AsyncStatus
done = record async_status_initial { is_done = true }

abbrev pub loading : AsyncStatus
loading = record async_status_initial { is_loading = true }

abbrev pub failed : Value → AsyncStatus
failed e = record async_status_initial { has_error = failure e }

-- `SupportedCredentialsWithoutPid`
pub data CredentialType : Type 0 where
  mdl european_disability_card european_health_insurance_card : CredentialType

pub data PidAuthMethod : Type 0 where
  spid cie_l2 cie_l3 : PidAuthMethod

pub data EnvType : Type 0 where
  pre prod : EnvType

-- `Record<SupportedCredentialsWithoutPid, A>`
pub record PerCredential (A : Type 0) : Type 0 where
  pub of_mdl : A
  pub of_disability_card : A
  pub of_health_card : A

-- `Record<PidAuthMethods, A>`
pub record PerMethod (A : Type 0) : Type 0 where
  pub of_spid : A
  pub of_cie_l2 : A
  pub of_cie_l3 : A

module _ {A : Type 0} where
  abbrev pub all_credentials : A → PerCredential A
  all_credentials a = record { of_mdl = a; of_disability_card = a; of_health_card = a }

  abbrev pub all_methods : A → PerMethod A
  all_methods a = record { of_spid = a; of_cie_l2 = a; of_cie_l3 = a }

  abbrev pub at : CredentialType → PerCredential A → A
  at mdl r = r.of_mdl
  at european_disability_card r = r.of_disability_card
  at european_health_insurance_card r = r.of_health_card

  -- `r[t] = a`
  abbrev pub put : CredentialType → A → PerCredential A → PerCredential A
  put mdl a r = record r { of_mdl = a }
  put european_disability_card a r = record r { of_disability_card = a }
  put european_health_insurance_card a r = record r { of_health_card = a }

  abbrev pub at_method : PidAuthMethod → PerMethod A → A
  at_method spid r = r.of_spid
  at_method cie_l2 r = r.of_cie_l2
  at_method cie_l3 r = r.of_cie_l3

  abbrev pub put_method : PidAuthMethod → A → PerMethod A → PerMethod A
  put_method spid a r = record r { of_spid = a }
  put_method cie_l2 a r = record r { of_cie_l2 = a }
  put_method cie_l3 a r = record r { of_cie_l3 = a }

pub record CredentialResult : Type 0 where
  pub credential : String
  pub parsed_credential : Dict Attribute
  pub key_tag : String
  pub credential_type : CredentialType

-- The credential type of a PID is always the same.
pub record PidResult : Type 0 where
  pub credential : String
  pub parsed_credential : Dict Attribute
  pub key_tag : String

-- `GetCredentialStatusAttestationThunkOutput`
pub record StatusOutput : Type 0 where
  pub status_attestation : String
  pub parsed_status_attestation : ParsedStatusAttestation
  pub credential_type : CredentialType

-- `GetTrustmarkThunkOutput`
pub record TrustmarkOutput : Type 0 where
  pub trustmark_jwt : String
  pub credential_type : CredentialType
  pub expiration_time : Value

-- `PreparePidFlowParamsThunkOutput`
pub record PidFlowParams : Type 0 where
  pub auth_url : String
  pub issuer_conf : IssuerMetadata
  pub client_id : Option String
  pub code_verifier : String
  pub wallet_instance_attestation : String
  pub credential_definition : AuthorizationDetail
  pub redirect_uri : String
  pub cie_pin : Option String

-- The three actions that a thunk made with `createAsyncThunk` dispatches, with its argument.
pub data Lifecycle (A R : Type 0) : Type 0 where
  pending : A → Lifecycle A R
  fulfilled : A → R → Lifecycle A R
  rejected : A → Value → Lifecycle A R

-- Of an argument, what a reducer reads.
pub data Action : Type 0 where
  session_set : String → Action
  session_reset instance_reset attestation_reset credential_reset : Action
  trustmark_reset : CredentialType → Action
  pid_reset pid_ciel3_flow_reset env_reset : Action
  env_set : EnvType → Action
  set_debug_visibility : Bool → Action
  set_debug_data : Dict Value → Action
  reset_debug_data : List String → Action
  create_wallet_instance : Lifecycle (Unit {0}) String → Action
  revoke_wallet_instance : Lifecycle (Unit {0}) (Unit {0}) → Action
  get_attestation : Lifecycle (Unit {0}) String → Action
  get_credential : Lifecycle CredentialType CredentialResult → Action
  get_status_attestation : Lifecycle CredentialType StatusOutput → Action
  get_trustmark : Lifecycle CredentialType TrustmarkOutput → Action
  get_pid_cie_id : Lifecycle PidAuthMethod PidResult → Action
  prepare_pid_flow : Lifecycle PidAuthMethod PidFlowParams → Action
  continue_pid_flow : Lifecycle String PidResult → Action
