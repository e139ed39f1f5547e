-- ===== src/Thunks/Instance.antt =====
-- The thunks of the wallet instance and of the trustmark: example/src/thunks/instance.ts and
-- trustmark.ts.
use io_react_native_wallet_i.Base.{List, ℕ, String, Option, none, some, if◌then◌else◌}
use io_react_native_wallet_i.Value.{Value}
use io_react_native_wallet_i.Host.{Host}
use io_react_native_wallet_i.Promise.{World, Async, lift}
use io_react_native_wallet_i.Promise
use io_react_native_wallet_i.Keys.{create_crypto_context_for, wia_keytag}
use io_react_native_wallet_i.Wallet.{get_credential_trustmark}
use io_react_native_wallet_i.Provider
use io_react_native_wallet_i.Provider.{Generated}
use io_react_native_wallet_i.Integrity.{
  Platform, NativeIntegrity, get_integrity_context, is_android, ensure_integrity_service_is_ready,
  generate_integrity_hardware_key_tag,
}
use io_react_native_wallet_i.Store.{TrustmarkOutput, instance_reset, CredentialType}
use io_react_native_wallet_i.Flow.{type_name, live}
use io_react_native_wallet_i.Thunks.{
  get_env, Environments, Thunk, ◌>>=◌, run, get_state, dispatch, required, Toolkit,
}

module _ (T : Toolkit) (H : Host) (G : Generated) (N : NativeIntegrity) (platform : Platform)
    (vars : Environments) (now : ℕ) where
  -- Whether the service is ready is not looked at, only that it did not throw.
  unfoldable pub create_wallet_instance_thunk : Thunk String
  create_wallet_instance_thunk = do
    state ← get_state
    _ ← run (
        lift (
          ensure_integrity_service_is_ready H N platform (
            if is_android platform
            then some (get_env vars state.environment.env).google_cloud_project_number
            else none)))
    tag ← run (generate_integrity_hardware_key_tag H N platform)
    run (
        Provider.create_wallet_instance H G (get_integrity_context H N platform tag)
          (get_env vars state.environment.env).wallet_provider_base_url)

  -- `order` is the random order of `obfuscateString`.
  unfoldable pub get_trustmark_thunk :
      (List ℕ → List ℕ) → CredentialType → (document_number : Option String) → Thunk TrustmarkOutput
  get_trustmark_thunk order type document_number = do
    state ← get_state
    attestation ← required "Wallet Instance Attestation not found" state.attestation.attestation
    ctx ← run (live (create_crypto_context_for H wia_keytag))
    mark ← run (
        lift (
          get_credential_trustmark H now order attestation ctx (type_name type) document_number
            (Value.string "2m")))
    run (
        Promise.pure (record {
          trustmark_jwt = mark.jwt;
          credential_type = type;
          expiration_time = mark.expiration_time;
        }))

  unfoldable pub revoke_wallet_instance_thunk : Thunk (Unit {0})
  revoke_wallet_instance_thunk = do
    state ← get_state
    tag ← required "Integrity key not found" state.instance_state.key_tag
    _ ← run (
        Provider.revoke_wallet_instance H G tag
          (get_env vars state.environment.env).wallet_provider_base_url)
    dispatch instance_reset
