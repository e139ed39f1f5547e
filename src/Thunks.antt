-- ===== src/Thunks.antt =====
-- The thunks of the example app: example/src/thunks, with `getEnv` and the selectors they use. A thunk
-- runs on the store, on the memory of the memoized selector, and on the world.
pub mod Login
pub mod Instance
pub mod Kept
pub mod Renewal
pub mod Revoked
pub mod Stored
mod Tests
use io_react_native_wallet_i.Base.{
  ℕ, ◌≡◌, ◌*◌, String, Bool, true, false, not, Option, none, some, ◌==◌, leb, includes,
  if◌then◌else◌,
}
use io_react_native_wallet_i.Value.{Value}
use io_react_native_wallet_i.Host.{Host}
use io_react_native_wallet_i.Errors.{Error, foreign}
use io_react_native_wallet_i.Errors.Result
use io_react_native_wallet_i.Errors.Result.{Result, ok, err}
use io_react_native_wallet_i.Promise.{World, Async, lift}
use io_react_native_wallet_i.Promise
use io_react_native_wallet_i.Keys.{
  LiveContext, create_crypto_context_for, regenerate_crypto_key, wia_keytag,
}
use io_react_native_wallet_i.Wallet
use io_react_native_wallet_i.Wallet.{get_credential_trustmark}
use io_react_native_wallet_i.Provider
use io_react_native_wallet_i.Provider.{Generated}
use io_react_native_wallet_i.Integrity.{
  Platform, NativeIntegrity, get_integrity_context, is_android, ensure_integrity_service_is_ready,
  generate_integrity_hardware_key_tag,
}
use io_react_native_wallet_i.Credential.Issuer.{evaluate_issuer_trust}
use io_react_native_wallet_i.Credential.Authorize.{
  start_user_authorization, build_authorization_url, complete_user_authorization_with_query_mode,
}
use io_react_native_wallet_i.Store.{
  EnvType, pre, prod, Lifecycle, pending, fulfilled, rejected, Action, get_attestation,
  instance_reset, credential_reset, CredentialType, CredentialResult, PidResult, StatusOutput,
  PidFlowParams,
}
use io_react_native_wallet_i.Store.Root.{RootState, root_reducer}
use io_react_native_wallet_i.Flow
use io_react_native_wallet_i.Flow.{
  type_name, live, FlowInput, Authorized, new_credential_key, obtain_and_parse, get_pid_cie_id,
  get_credential_status_attestation,
}

-- `Env`, but for what no thunk below reads.
pub record Env : Type 0 where
  pub wallet_provider_base_url : String
  pub wallet_pid_provider_base_url : String
  pub wallet_eaa_provider_base_url : String
  pub redirect_uri : String
  pub google_cloud_project_number : String

-- The values of the build's environment, under `PRE_` and `PROD_`.
pub record Environments : Type 0 where
  pub pre_env : Env
  pub prod_env : Env

abbrev pub get_env : Environments → EnvType → Env
get_env vars pre = vars.pre_env
get_env vars prod = vars.prod_env

-- What the memoized selector remembers: the attestation it saw last, and its answer.
pub record App : Type 0 where
  pub store : RootState
  pub memory : Option (Option String × Bool)
  pub world : World

-- The body of a thunk, with `getState` and `dispatch`.
abbrev pub Thunk : Type 0 → Type 0
Thunk A = App → Result A × App

infixl 5 ◌>>=◌
unfoldable pub ◌>>=◌ : {A B : Type 0} → Thunk A → (A → Thunk B) → Thunk B
(m >>= k) s = let (r, s') = m s in elim r [ ok a ↦ k a s' | err e ↦ (err e, s') ]

abbrev pub run : {A : Type 0} → Async A → Thunk A
run m s = let (r, w) = m s.world in (r, record s { world = w })

abbrev pub get_state : Thunk RootState
get_state s = (ok s.store, s)

abbrev pub dispatched : Action → App → App
dispatched a s = record s { store = root_reducer s.store a }

abbrev pub dispatch : Action → Thunk (Unit {0})
dispatch a s = (ok tt, dispatched a s)

-- A text that is missing or empty.
abbrev pub required : String → Option String → Thunk String
required message none s = (err (foreign message), s)
required message (some t) s = if t == "" then (err (foreign message), s) else (ok t, s)

-- What Redux Toolkit does: the promise of a dispatched async thunk is never rejected, and a memoized
-- selector takes its memory, its input and the function of the input.
pub record Toolkit : Type 1 where
  pub dispatch_thunk : {I R : Type 0} → (Lifecycle I R → Action) → I → Thunk R → App → App
  pub select :
      (Option String → Result Bool)
      → Option (Option String × Bool)
      → Option String
      → Result Bool × Option (Option String × Bool)

-- The last action of a thunk.
unfoldable pub settled :
    {I R : Type 0} → (Error → Value) → (Lifecycle I R → Action) → I → Result R × App → App
settled serialize lifecycle arg (ok r, s) = dispatched (lifecycle (fulfilled arg r)) s
settled serialize lifecycle arg (err e, s) = dispatched (lifecycle (rejected arg (serialize e))) s

-- How they are documented: the action that the thunk starts with, its body, the action of its end; and
-- a selector that computes what it has not seen and repeats what it has.
pub record IsToolkit (T : Toolkit) (serialize : Error → Value) : Type 1 where
  pub dispatches :
      {I R : Type 0} (lifecycle : Lifecycle I R → Action) (arg : I) (body : Thunk R) (s : App)
      → T.dispatch_thunk lifecycle arg body s
        ≡ settled serialize lifecycle arg (body (dispatched (lifecycle (pending arg)) s))
  pub remembers :
      (f : Option String → Result Bool) (input : Option String) (b : Bool)
      → T.select f (some (input, b)) input ≡ (ok b, some (input, b))
  pub computes :
      (f : Option String → Result Bool) (input : Option String) {b : Bool}
      → f input ≡ ok b
      → T.select f none input ≡ (ok b, some (input, b))

module _ (H : Host) where
  -- The second function of the selector; `now` is `new Date()`.
  unfoldable pub needs_attestation : ℕ → Option String → Result Bool
  needs_attestation now none = ok true
  needs_attestation now (some token) =
      if token == ""
      then ok true
      else (Result.◌>>=◌ (Wallet.decode H token) λ wia. ok (not (leb now (wia.payload.exp * 1000))))

module _ (T : Toolkit) (H : Host) (G : Generated) (N : NativeIntegrity) (platform : Platform)
    (vars : Environments) (now : ℕ) where
  unfoldable pub should_request_attestation : Thunk Bool
  should_request_attestation s =
      let (r, m) = T.select (needs_attestation H now) s.memory s.store.attestation.attestation in
      (r, record s { memory = m })

  unfoldable pub get_attestation_thunk : Thunk String
  get_attestation_thunk = do
    state ← get_state
    tag ← required "Integrity key not found" state.instance_state.key_tag
    _ ← run (regenerate_crypto_key H wia_keytag)
    ctx ← run (live (create_crypto_context_for H wia_keytag))
    run (
        Provider.get_attestation H G ctx (get_integrity_context H N platform tag)
          (get_env vars state.environment.env).wallet_provider_base_url)

  abbrev pub renew_if : Bool → Thunk (Unit {0})
  renew_if needed s =
      (ok tt, if needed then T.dispatch_thunk get_attestation tt get_attestation_thunk s else s)

  -- The head of the thunks that need an attestation.
  unfoldable pub ensure_attestation : Thunk String
  unfolding ◌>>=◌
  ensure_attestation = do
    needed ← should_request_attestation
    _ ← renew_if needed
    state ← get_state
    required "Wallet Instance Attestation not found" state.attestation.attestation

  abbrev pub required_pid : Option PidResult → Thunk PidResult
  required_pid none s = (err (foreign "PID not found"), s)
  required_pid (some pid) s = (ok pid, s)

  unfoldable pub get_credential_thunk : CredentialType → Thunk CredentialResult
  get_credential_thunk type = do
    attestation ← ensure_attestation
    state ← get_state
    pid ← required_pid state.pid.pid
    run (
        Flow.get_credential H
          (record {
            issuer_url = (get_env vars state.environment.env).wallet_eaa_provider_base_url;
            redirect_uri = (get_env vars state.environment.env).redirect_uri;
            wallet_instance_attestation = attestation;
          })
          type pid.credential (create_crypto_context_for H wia_keytag)
          (create_crypto_context_for H pid.key_tag))

  -- The credential and its key tag come with the argument.
  unfoldable pub get_status_attestation_thunk :
      (Error → String) → (credential key_tag : String) → CredentialType → Thunk StatusOutput
  get_status_attestation_thunk error_json credential key_tag type = do
    state ← get_state
    run (
        get_credential_status_attestation H error_json
          (get_env vars state.environment.env).wallet_eaa_provider_base_url credential
          (create_crypto_context_for H key_tag) type)
