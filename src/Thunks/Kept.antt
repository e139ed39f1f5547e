-- ===== src/Thunks/Kept.antt =====
-- What the thunks leave of the store.
use io_react_native_wallet_i.Base.{
  arith, ◌≡◌, refl, ap, ◌∙◌, ℕ, String, Bool, true, false, Option, none, some,
}
use io_react_native_wallet_i.Host.{Host}
use io_react_native_wallet_i.Errors.{Error}
use io_react_native_wallet_i.Errors.Result.{Result, ok, err}
use io_react_native_wallet_i.Promise.{Async}
use io_react_native_wallet_i.Provider.{Generated}
use io_react_native_wallet_i.Integrity.{Platform, NativeIntegrity}
use io_react_native_wallet_i.Value.{Value}
use io_react_native_wallet_i.Store.{get_attestation, pending, CredentialType, PidResult}
use io_react_native_wallet_i.Store.Slices.{
  EnvironmentState, environment_reducer, CredentialState, credential_reducer,
}
use io_react_native_wallet_i.Store.Root.{RootState, root_reducer}
use io_react_native_wallet_i.Thunks.{
  Toolkit, IsToolkit, Environments, App, Thunk, dispatched, settled, renew_if,
  should_request_attestation, ensure_attestation, required_pid, get_credential_thunk,
  get_attestation_thunk, required, run, get_state, ◌>>=◌,
}

-- The body of a thunk leaves a part of the store, whatever it comes to.
unfoldable pub Keeps : {X A : Type 0} → (RootState → X) → Thunk A → Type 0
Keeps part m = (s : App) → part (m s).1.store ≡ part s.store

module _ {X : Type 0} (part : RootState → X) where
  pub >>=-Keeps :
      {A B : Type 0} (m : Thunk A) (k : A → Thunk B)
      → Keeps part m
      → ((a : A) → Keeps part (k a))
      → Keeps part (m >>= k)
  unfolding Keeps ◌>>=◌
  >>=-Keeps {A} {B} m k hm hk s = after (m s) ∙ hm s
    where
      after :
          (p : Result A × App)
          → part
              (elim p.0 as (λ _. Result B × App) [ ok a ↦ k a p.1 | err e ↦ (err e, p.1) ]).1.store
            ≡ part p.1.store
      after (ok a, s') = hk a s'
      after (err e, s') = refl

  pub run-Keeps : {A : Type 0} (m : Async A) → Keeps part (run m)
  unfolding Keeps
  run-Keeps m s = refl

  pub get_state-Keeps : Keeps part get_state
  unfolding Keeps
  get_state-Keeps s = refl

  pub required-Keeps : (message : String) (o : Option String) → Keeps part (required message o)
  unfolding Keeps
  required-Keeps message none s = refl
  required-Keeps message (some t) s = ground (arith)

  pub get_attestation_thunk-Keeps :
      (T : Toolkit) (H : Host) (G : Generated) (N : NativeIntegrity) (platform : Platform)
      (vars : Environments) (now : ℕ)
      → Keeps part (get_attestation_thunk T H G N platform vars now)
  unfolding get_attestation_thunk
  get_attestation_thunk-Keeps T H G N platform vars now = >>=-Keeps _ _ get_state-Keeps λ state.
      >>=-Keeps _ _ (required-Keeps "Integrity key not found" state.instance_state.key_tag)
        λ tag. >>=-Keeps _ _ (run-Keeps _) λ _. >>=-Keeps _ _ (run-Keeps _) λ ctx. run-Keeps _

-- What a renewal of the attestation never touches.
abbrev pub apart : RootState → EnvironmentState × CredentialState
apart st = (st.environment, st.credential)

settled_renewal :
    (serialize : Error → Value) (p : Result String × App)
    → apart (settled serialize get_attestation tt p).store ≡ apart p.1.store
unfolding settled root_reducer environment_reducer credential_reducer
settled_renewal serialize (ok a, s) = refl
settled_renewal serialize (err e, s) = refl

pending_renewal :
    (s : App) → apart (dispatched (get_attestation (pending tt)) s).store ≡ apart s.store
unfolding root_reducer environment_reducer credential_reducer
pending_renewal s = refl

module _ (T : Toolkit) (serialize : Error → Value) (laws : IsToolkit T serialize) (H : Host)
    (G : Generated) (N : NativeIntegrity) (platform : Platform) (vars : Environments)
    (now : ℕ) where
  renew_if-Keeps : (b : Bool) → Keeps apart (renew_if T H G N platform vars now b)
  unfolding Keeps
  renew_if-Keeps false s = refl
  renew_if-Keeps true s =
      ap (λ a. apart a.store)
        (laws.dispatches get_attestation tt (get_attestation_thunk T H G N platform vars now) s)
      ∙ settled_renewal serialize _
      ∙ get_attestation_thunk-Keeps apart T H G N platform vars now _
      ∙ pending_renewal s

  should_request_attestation-Keeps :
      Keeps apart (should_request_attestation T H G N platform vars now)
  unfolding Keeps should_request_attestation
  should_request_attestation-Keeps s = refl

  pub ensure_attestation-Keeps : Keeps apart (ensure_attestation T H G N platform vars now)
  unfolding ensure_attestation
  ensure_attestation-Keeps = >>=-Keeps apart _ _ should_request_attestation-Keeps λ needed.
      >>=-Keeps apart _ _ (renew_if-Keeps needed) λ _.
        >>=-Keeps apart _ _ (get_state-Keeps apart) λ state.
          required-Keeps apart "Wallet Instance Attestation not found" state.attestation.attestation

  required_pid-Keeps :
      (pid : Option PidResult) → Keeps apart (required_pid T H G N platform vars now pid)
  unfolding Keeps
  required_pid-Keeps none s = refl
  required_pid-Keeps (some pid) s = refl

  pub get_credential_thunk-Keeps :
      (type : CredentialType) → Keeps apart (get_credential_thunk T H G N platform vars now type)
  unfolding get_credential_thunk
  get_credential_thunk-Keeps type = >>=-Keeps apart _ _ ensure_attestation-Keeps λ attestation.
      >>=-Keeps apart _ _ (get_state-Keeps apart)
        λ state. >>=-Keeps apart _ _ (required_pid-Keeps state.pid.pid) λ pid. run-Keeps apart _
