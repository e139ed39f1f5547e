-- ===== src/Thunks/Revoked.antt =====
-- The thunk that revokes the wallet instance, from its dispatch to what the store has afterwards.
use io_react_native_wallet_i.Base.{◌≡◌, refl, ap, ◌∙◌, ℕ, String, false, some, ◌==◌}
use io_react_native_wallet_i.Value.{Value}
use io_react_native_wallet_i.Host.{Host}
use io_react_native_wallet_i.Errors.{Error, GenericErrorReason}
use io_react_native_wallet_i.Errors.Result.{Result, ok, err}
use io_react_native_wallet_i.Promise.{World}
use io_react_native_wallet_i.Provider
use io_react_native_wallet_i.Provider.{Generated}
use io_react_native_wallet_i.Integrity.{Platform, NativeIntegrity}
use io_react_native_wallet_i.Store.{revoke_wallet_instance, instance_reset, pending, done, failed}
use io_react_native_wallet_i.Store.Slices.{
  instance_initial, instance_reducer, attestation_initial, attestation_reducer, credential_initial,
  credential_reducer, session_reducer, environment_reducer, debug_reducer,
}
use io_react_native_wallet_i.Store.Pid.{pid_initial, pid_reducer}
use io_react_native_wallet_i.Store.Root.{RootState, root_reducer, dispatch_all}
use io_react_native_wallet_i.Store.Resets.{dispatch_all-revocation}
use io_react_native_wallet_i.Thunks.{
  Toolkit, IsToolkit, Environments, get_env, App, dispatched, settled, run, dispatch, ◌>>=◌,
}
use io_react_native_wallet_i.Thunks.Renewal.{required-some}
use io_react_native_wallet_i.Thunks.Instance.{revoke_wallet_instance_thunk}

-- What the answer of the provider makes of the store.
abbrev pub revoked : (Error → Value) → Result GenericErrorReason → RootState → RootState
revoked serialize (ok reason) st = record st {
  instance_state = record instance_initial { revocation_async_status = done };
  attestation = attestation_initial;
  credential = credential_initial;
  pid = pid_initial;
}
revoked serialize (err e) st = record st {
  instance_state = record st.instance_state { revocation_async_status = failed (serialize e) };
}

module _ (T : Toolkit) (serialize : Error → Value) (laws : IsToolkit T serialize) (H : Host)
    (G : Generated) (N : NativeIntegrity) (platform : Platform) (vars : Environments)
    (now : ℕ) where
  outcome :
      (s : App) (r : Result GenericErrorReason) (w : World)
      → settled serialize revoke_wallet_instance tt (
          ((λ a. (r, record a { world = w })) >>= λ _. dispatch instance_reset)
            (dispatched (revoke_wallet_instance (pending tt)) s))
        ≡ record s { store = revoked serialize r s.store; world = w }
  unfolding settled ◌>>=◌ root_reducer instance_reducer attestation_reducer credential_reducer
      pid_reducer session_reducer environment_reducer debug_reducer dispatch_all
  outcome s (ok reason) w =
      ap (λ st. record s { store = st; world = w }) (dispatch_all-revocation s.store)
  outcome s (err e) w = refl

  revoke_body :
      (s : App) (tag : String) (r : Result GenericErrorReason) (w : World)
      → s.store.instance_state.key_tag ≡ some tag
      → (tag == "") ≡ false
      → Provider.revoke_wallet_instance H G tag
          (get_env vars s.store.environment.env).wallet_provider_base_url
          s.world
        ≡ (r, w)
      → settled serialize revoke_wallet_instance tt (
          revoke_wallet_instance_thunk T H G N platform vars now
            (dispatched (revoke_wallet_instance (pending tt)) s))
        ≡ record s { store = revoked serialize r s.store; world = w }
  unfolding settled revoke_wallet_instance_thunk ◌>>=◌ root_reducer instance_reducer
      attestation_reducer credential_reducer pid_reducer session_reducer environment_reducer
      debug_reducer
  revoke_body s tag r w has full answer =
      let pend = dispatched (revoke_wallet_instance (pending tt)) s in
      ap
        (λ (q : Result String × App). settled serialize revoke_wallet_instance tt (elim q.0 [
          | ok t ↦
              (run (
                    Provider.revoke_wallet_instance H G t
                      (get_env vars s.store.environment.env).wallet_provider_base_url)
                  >>= λ _. dispatch instance_reset)
                q.1
          | err x ↦ (err x, q.1)
        ]))
        (required-some "Integrity key not found" s.store.instance_state.key_tag tag pend has full)
      ∙ ap
          (λ (q : Result GenericErrorReason × World).
            settled serialize revoke_wallet_instance tt
              (((λ a. (q.0, record a { world = q.1 })) >>= λ _. dispatch instance_reset) pend))
          answer
      ∙ outcome s r w

  -- Whatever the provider answers, the store is as described.
  pub revoke_wallet_instance_thunk-eq :
      (s : App) (tag : String) (r : Result GenericErrorReason) (w : World)
      → s.store.instance_state.key_tag ≡ some tag
      → (tag == "") ≡ false
      → Provider.revoke_wallet_instance H G tag
          (get_env vars s.store.environment.env).wallet_provider_base_url
          s.world
        ≡ (r, w)
      → T.dispatch_thunk revoke_wallet_instance tt
          (revoke_wallet_instance_thunk T H G N platform vars now)
          s
        ≡ record s { store = revoked serialize r s.store; world = w }
  revoke_wallet_instance_thunk-eq s tag r w has full answer =
      laws.dispatches revoke_wallet_instance tt
        (revoke_wallet_instance_thunk T H G N platform vars now) s
      ∙ revoke_body s tag r w has full answer
