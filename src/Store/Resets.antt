-- ===== src/Store/Resets.antt =====
-- What the resets of the store take away, and how the PID flow and the revocation end.
use io_react_native_wallet_i.Base.{
  ◌≡◌, refl, ap, ◌∙◌, Bool, true, false, Option, none, List, [], ◌∷◌, ◌⊎◌, inl, inr, All, arith,
}
use io_react_native_wallet_i.Store.{
  CredentialType, mdl, european_disability_card, european_health_insurance_card, put,
  all_credentials, Lifecycle, Action, pending, fulfilled, session_reset, instance_reset,
  trustmark_reset, create_wallet_instance, revoke_wallet_instance, get_attestation, get_credential,
  get_status_attestation, get_trustmark, get_pid_cie_id, prepare_pid_flow, continue_pid_flow, done,
}
use io_react_native_wallet_i.Store.Slices.{
  InstanceState, instance_reducer, instance_initial, AttestationState, attestation_reducer,
  attestation_initial, CredentialState, credential_reducer, credential_initial, session_reducer,
  environment_reducer, debug_reducer,
}
use io_react_native_wallet_i.Store.Pid.{PidState, pid_reducer, pid_initial}
use io_react_native_wallet_i.Store.Root.{RootState, root_reducer, dispatch_all}

abbrev pub was_fulfilled : {A R : Type 0} → Lifecycle A R → Bool
was_fulfilled (fulfilled a r) = true
was_fulfilled _ = false

-- The actions that bring something obtained into the store.
abbrev pub obtains : Action → Bool
obtains (create_wallet_instance l) = was_fulfilled l
obtains (get_attestation l) = was_fulfilled l
obtains (get_credential l) = was_fulfilled l
obtains (get_status_attestation l) = was_fulfilled l
obtains (get_trustmark l) = was_fulfilled l
obtains (get_pid_cie_id l) = was_fulfilled l
obtains (prepare_pid_flow l) = was_fulfilled l
obtains (continue_pid_flow l) = was_fulfilled l
obtains _ = false

-- Nothing obtained is in the store.
pub record IsCleared (s : RootState) : Type 0 where
  pub no_key_tag : s.instance_state.key_tag ≡ none
  pub no_attestation : s.attestation.attestation ≡ none
  pub no_credential : s.credential.credentials ≡ all_credentials none
  pub no_status : s.credential.status_attestation ≡ all_credentials none
  pub no_trustmark : s.credential.trustmark ≡ all_credentials none
  pub no_pid : s.pid.pid ≡ none
  pub no_params : s.pid.pid_flow_params ≡ none

put-none :
    {A : Type 0} (t : CredentialType)
    → put {A = Option A} t none (all_credentials none) ≡ all_credentials none
put-none mdl = refl
put-none european_disability_card = refl
put-none european_health_insurance_card = refl

instance_cleared :
    (s : InstanceState) (a : Action)
    → obtains a ≡ false
    → s.key_tag ≡ none
    → (instance_reducer s a).key_tag ≡ none
unfolding instance_reducer
instance_cleared s session_reset h1 h2 = refl
instance_cleared s _ h1 h2 = ground arith

attestation_cleared :
    (s : AttestationState) (a : Action)
    → obtains a ≡ false
    → s.attestation ≡ none
    → (attestation_reducer s a).attestation ≡ none
unfolding attestation_reducer
attestation_cleared s session_reset h1 h2 = refl
attestation_cleared s _ h1 h2 = ground arith

credentials_cleared :
    (s : CredentialState) (a : Action)
    → obtains a ≡ false
    → s.credentials ≡ all_credentials none
    → (credential_reducer s a).credentials ≡ all_credentials none
unfolding credential_reducer
credentials_cleared s session_reset h1 h2 = refl
credentials_cleared s _ h1 h2 = ground arith

statuses_cleared :
    (s : CredentialState) (a : Action)
    → obtains a ≡ false
    → s.status_attestation ≡ all_credentials none
    → (credential_reducer s a).status_attestation ≡ all_credentials none
unfolding credential_reducer
statuses_cleared s session_reset h1 h2 = refl
statuses_cleared s _ h1 h2 = ground arith

trustmarks_cleared :
    (s : CredentialState) (a : Action)
    → obtains a ≡ false
    → s.trustmark ≡ all_credentials none
    → (credential_reducer s a).trustmark ≡ all_credentials none
unfolding credential_reducer
trustmarks_cleared s (trustmark_reset t) h1 h2 = ap (put t none) h2 ∙ put-none t
trustmarks_cleared s _ h1 h2 = ground arith

pid_cleared :
    (s : PidState) (a : Action)
    → obtains a ≡ false
    → (s.pid ≡ none) × (s.pid_flow_params ≡ none)
    → ((pid_reducer s a).pid ≡ none) × ((pid_reducer s a).pid_flow_params ≡ none)
unfolding pid_reducer
pid_cleared s session_reset h1 h2 = (refl, refl)
pid_cleared s _ h1 h2 = ground arith

root_reducer-IsCleared :
    (s : RootState) (a : Action) → obtains a ≡ false → IsCleared s → IsCleared (root_reducer s a)
unfolding root_reducer
root_reducer-IsCleared s a h c =
    let (no_pid, no_params) = pid_cleared s.pid a h (c.no_pid, c.no_params) in
    record {
      no_key_tag = instance_cleared s.instance_state a h c.no_key_tag;
      no_attestation = attestation_cleared s.attestation a h c.no_attestation;
      no_credential = credentials_cleared s.credential a h c.no_credential;
      no_status = statuses_cleared s.credential a h c.no_status;
      no_trustmark = trustmarks_cleared s.credential a h c.no_trustmark;
      no_pid = no_pid;
      no_params = no_params;
    }

dispatch_further-IsCleared :
    (s : RootState) (actions : List Action)
    → All (λ a. obtains a ≡ false) actions
    → IsCleared s
    → IsCleared (dispatch_all s actions)
unfolding dispatch_all
dispatch_further-IsCleared s [] h c = c
dispatch_further-IsCleared s (a ∷ actions) (h1, h2) c =
    dispatch_further-IsCleared (root_reducer s a) actions h2 (root_reducer-IsCleared s a h1 c)

reset-IsCleared :
    (s : RootState) (reset : Action)
    → (reset ≡ session_reset) ⊎ (reset ≡ instance_reset)
    → IsCleared (root_reducer s reset)
unfolding root_reducer instance_reducer attestation_reducer credential_reducer pid_reducer
reset-IsCleared s reset (inl h) = rw h (record {
  no_key_tag = refl;
  no_attestation = refl;
  no_credential = refl;
  no_status = refl;
  no_trustmark = refl;
  no_pid = refl;
  no_params = refl;
})
reset-IsCleared s reset (inr h) = rw h (record {
  no_key_tag = refl;
  no_attestation = refl;
  no_credential = refl;
  no_status = refl;
  no_trustmark = refl;
  no_pid = refl;
  no_params = refl;
})

-- From any state, after a reset of the session or of the instance, and as long as no thunk that
-- obtains something is fulfilled, the store has no key tag of the instance, no attestation, no
-- credential, no status attestation, no trustmark, no PID and no parameters of a PID flow.
pub dispatch_all-IsCleared :
    (s : RootState) (reset : Action) (actions : List Action)
    → (reset ≡ session_reset) ⊎ (reset ≡ instance_reset)
    → All (λ a. obtains a ≡ false) actions
    → IsCleared (dispatch_all s (reset ∷ actions))
unfolding dispatch_all
dispatch_all-IsCleared s reset actions h1 h2 =
    dispatch_further-IsCleared (root_reducer s reset) actions h2 (reset-IsCleared s reset h1)

-- The actions of a revocation that succeeds: the thunk resets the instance before it is fulfilled.
abbrev pub revocation : List Action
revocation =
    revoke_wallet_instance (pending tt)
    ∷ instance_reset
    ∷ revoke_wallet_instance (fulfilled tt tt)
    ∷ []

-- From any state, a revocation of the wallet instance that succeeds ends in a state whose instance,
-- attestation, credentials and PID are the initial ones but for the revocation, which is done, and
-- whose session, environment and debug data are as before.
pub dispatch_all-revocation :
    (s : RootState)
    → dispatch_all s revocation ≡ record s {
      instance_state = record instance_initial { revocation_async_status = done };
      attestation = attestation_initial;
      credential = credential_initial;
      pid = pid_initial;
    }
unfolding dispatch_all root_reducer instance_reducer attestation_reducer credential_reducer
    pid_reducer session_reducer environment_reducer debug_reducer
dispatch_all-revocation s = refl
