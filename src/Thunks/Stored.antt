-- ===== src/Thunks/Stored.antt =====
-- The thunk of a credential, from its dispatch to what the store has afterwards.
use io_react_native_wallet_i.Base.{
  ◌≡◌, refl, sym, ap, ◌∙◌, ◌⊎◌, inl, inr, ℕ, String, true, some, none, Option,
}
use io_react_native_wallet_i.Value.{Value}
use io_react_native_wallet_i.Host.{Host}
use io_react_native_wallet_i.Errors.{Error}
use io_react_native_wallet_i.Errors.Result.{Result, ok, err, ok-injective}
use io_react_native_wallet_i.Promise.{World, Async}
use io_react_native_wallet_i.Keys.{LiveContext, create_crypto_context_for, wia_keytag}
use io_react_native_wallet_i.Provider.{Generated}
use io_react_native_wallet_i.Integrity.{Platform, NativeIntegrity}
use io_react_native_wallet_i.Store.{
  CredentialType, mdl, european_disability_card, european_health_insurance_card, PerCredential, at,
  put, CredentialResult, PidResult, get_credential, pending, done, failed,
}
use io_react_native_wallet_i.Store.Slices.{credential_reducer, environment_reducer}
use io_react_native_wallet_i.Store.Root.{root_reducer}
use io_react_native_wallet_i.Store.Tracked.{put-each}
use io_react_native_wallet_i.Flow
use io_react_native_wallet_i.Flow.{FlowInput}
use io_react_native_wallet_i.Flow.Bound.{IsObtained, get_credential-IsObtained}
use io_react_native_wallet_i.Thunks.{
  Toolkit, IsToolkit, Environments, get_env, App, Thunk, run, dispatched, settled,
  get_credential_thunk, ensure_attestation, required_pid, ◌>>=◌,
}
use io_react_native_wallet_i.Thunks.Kept.{
  Keeps, ensure_attestation-Keeps, get_credential_thunk-Keeps,
}

pub >>=-eq-returned :
    {A B : Type 0} (m : Thunk A) (k : A → Thunk B) (s : App) {b : B} {s'' : App}
    → (m >>= k) s ≡ (ok b, s'')
    → (a : A) × (s' : App) × (m s ≡ (ok a, s')) × (k a s' ≡ (ok b, s''))
unfolding ◌>>=◌
>>=-eq-returned {A} {B} m k s {b} {s''} h = after (m s) refl h
  where
    after :
        (p : Result A × App)
        → m s ≡ p
        → ◌≡◌ {A = Result B × App} (elim p.0 [ ok a ↦ k a p.1 | err e ↦ (err e, p.1) ]) (ok b, s'')
        → (a : A) × (s' : App) × (m s ≡ (ok a, s')) × (k a s' ≡ (ok b, s''))
    after (ok a, s') e h = (a, s', e, h)
    after (err x, s') e h = cc

run-eq :
    {A : Type 0} (m : Async A) (s : App) {a : A} {s' : App}
    → run m s ≡ (ok a, s')
    → m s.world ≡ (ok a, s'.world)
run-eq m s h = ap (λ p. (p.0, p.1.world)) h

at-put : {A : Type 0} (t : CredentialType) (a : A) (r : PerCredential A) → at t (put t a r) ≡ a
at-put mdl a r = refl
at-put european_disability_card a r = refl
at-put european_health_insurance_card a r = refl

-- No credential changes, and the operation has failed.
pub record IsFailed (type : CredentialType) (s s' : App) : Type 0 where
  pub reason : Value
  pub kept : s'.store.credential.credentials ≡ s.store.credential.credentials
  pub has_failed : at type s'.store.credential.credentials_async_status ≡ failed reason

module _ (T : Toolkit) (H : Host) (G : Generated) (N : NativeIntegrity) (platform : Platform)
    (vars : Environments) (now : ℕ) where
  -- The credential of the type is stored and done, and the other ones are as before. The flow that
  -- obtained it ran from the world that the head of the thunk left, to the world after.
  pub record IsStored (issuer_url : String) (type : CredentialType) (s s' : App) : Type 0 where
    pub result : CredentialResult
    pub start : World
    pub has_start :
        start
        ≡ (ensure_attestation T H G N platform vars now
            (dispatched (get_credential (pending type)) s)).1.world
    pub has_type : result.credential_type ≡ type
    pub obtained :
        IsObtained H issuer_url result.key_tag result.credential result.parsed_credential true start
          s'.world
    pub stored : at type s'.store.credential.credentials ≡ some result
    pub is_done : at type s'.store.credential.credentials_async_status ≡ done
    pub others :
        (t : CredentialType)
        → (t ≡ type) ⊎ (at t s'.store.credential.credentials ≡ at t s.store.credential.credentials)

  required_pid-app :
      (pid : Option PidResult) (s : App) → s ≡ (required_pid T H G N platform vars now pid s).1
  required_pid-app none s = refl
  required_pid-app (some pid) s = refl

module _ (T : Toolkit) (serialize : Error → Value) (laws : IsToolkit T serialize) (H : Host)
    (G : Generated) (N : NativeIntegrity) (platform : Platform) (vars : Environments)
    (now : ℕ) where
  at_url :
      {url url' : String} (c : CredentialResult) {w w' : World}
      → url ≡ url'
      → IsObtained H url c.key_tag c.credential c.parsed_credential true w w'
      → IsObtained H url' c.key_tag c.credential c.parsed_credential true w w'
  at_url c same obtained = rw (sym same) obtained

  flow-IsObtained :
      (input : FlowInput) (type : CredentialType) (pid : String) (wia_ctx pid_ctx : LiveContext)
      (s : App) {c : CredentialResult} {s' : App}
      → run (Flow.get_credential H input type pid wia_ctx pid_ctx) s ≡ (ok c, s')
      → (c.credential_type ≡ type)
        × IsObtained H input.issuer_url c.key_tag c.credential c.parsed_credential true s.world
            s'.world
  flow-IsObtained input type pid wia_ctx pid_ctx s h =
      get_credential-IsObtained H input type pid wia_ctx pid_ctx s.world
        (run-eq (Flow.get_credential H input type pid wia_ctx pid_ctx) s h)

  -- What a body that returned has obtained, from the url of the environment.
  get_credential_thunk-IsObtained :
      (type : CredentialType) (s : App) {c : CredentialResult} {s' : App}
      → get_credential_thunk T H G N platform vars now type s ≡ (ok c, s')
      → (c.credential_type ≡ type)
        × (start : World) × (start ≡ (ensure_attestation T H G N platform vars now s).1.world)
        × IsObtained H
            (get_env vars s.store.environment.env).wallet_eaa_provider_base_url
            c.key_tag
            c.credential
            c.parsed_credential
            true
            start
            s'.world
  unfolding get_credential_thunk Keeps
  get_credential_thunk-IsObtained type s {c} h =
      let (attestation, s1, e1, h1) = >>=-eq-returned _ _ s h in
      let (state, s2, e2, h2) = >>=-eq-returned _ _ s1 h1 in
      let (pid, s3, e3, h3) = >>=-eq-returned _ _ s2 h2 in
      let same_state = ok-injective (ap (λ p. p.0) e2) in
      let same_env =
        ap (λ st. st.environment) (sym same_state)
        ∙ ap (λ p. p.1.store.environment) (sym e1)
        ∙ ap (λ v. v.0) (ensure_attestation-Keeps T serialize laws H G N platform vars now s) in
      let (own, obtained) =
        flow-IsObtained
          (record {
            issuer_url = (get_env vars state.environment.env).wallet_eaa_provider_base_url;
            redirect_uri = (get_env vars state.environment.env).redirect_uri;
            wallet_instance_attestation = attestation;
          })
          type pid.credential (create_crypto_context_for H wia_keytag)
          (create_crypto_context_for H pid.key_tag) s3 h3 in
      (
        own,
        s3.world,
        ap (λ p. p.1.world) (sym e3)
            ∙ ap (λ (a : App). a.world)
                (sym (required_pid-app T H G N platform vars now state.pid.pid s2))
            ∙ ap (λ p. p.1.world) (sym e2)
            ∙ ap (λ p. p.1.world) (sym e1),
        at_url c (ap (λ env. (get_env vars env.env).wallet_eaa_provider_base_url) same_env)
            obtained,
      )

  settled_credential :
      (type : CredentialType) (s : App) (p : Result CredentialResult × App)
      → get_credential_thunk T H G N platform vars now type
          (dispatched (get_credential (pending type)) s)
        ≡ p
      → IsStored T H G N platform vars now
          (get_env vars s.store.environment.env).wallet_eaa_provider_base_url
          type
          s
          (settled serialize get_credential type p)
        ⊎ IsFailed type s (settled serialize get_credential type p)
  unfolding settled root_reducer environment_reducer credential_reducer Keeps
  settled_credential type s (ok c, s') e =
      let before = dispatched (get_credential (pending type)) s in
      let (own, start, has_start, obtained) = get_credential_thunk-IsObtained type before e in
      let kept : s'.store.credential.credentials ≡ s.store.credential.credentials =
        ap (λ p. p.1.store.credential.credentials) (sym e)
        ∙ ap (λ v. v.1.credentials)
            (get_credential_thunk-Keeps T serialize laws H G N platform vars now type before) in
      inl (record {
        result = c;
        start = start;
        has_start = has_start;
        has_type = own;
        obtained = obtained;
        stored =
            ap (λ u. at u (put c.credential_type (some c) s'.store.credential.credentials))
              (sym own)
            ∙ at-put c.credential_type (some c) s'.store.credential.credentials;
        is_done =
            ap (λ u. at u (put c.credential_type done s'.store.credential.credentials_async_status))
              (sym own)
            ∙ at-put c.credential_type done s'.store.credential.credentials_async_status;
        others =
            put-each (λ t x. (t ≡ type) ⊎ (x ≡ at t s.store.credential.credentials))
              c.credential_type (λ t. inr (ap (λ r. at t r) kept)) (inl own);
      })
  settled_credential type s (err e, s') h = inr (record {
    reason = serialize e;
    kept =
        ap (λ p. p.1.store.credential.credentials) (sym h)
        ∙ ap (λ v. v.1.credentials)
            (get_credential_thunk-Keeps T serialize laws H G N platform vars now type
              (dispatched (get_credential (pending type)) s));
    has_failed = at-put type (failed (serialize e)) s'.store.credential.credentials_async_status;
  })

  -- When the thunk of a credential has run, from any state of the store and with the documented
  -- behaviour of the toolkit, either the credential of the type is in the store and done, and no
  -- other credential changed: it was obtained by a flow that ran from what the head of the thunk
  -- left to what there is after the thunk, from the issuer of the selected environment, and is
  -- verified and bound to the key that this flow generated; or the operation has failed and no
  -- credential changed.
  pub get_credential_thunk-IsStored :
      (type : CredentialType) (s : App)
      → IsStored T H G N platform vars now
          (get_env vars s.store.environment.env).wallet_eaa_provider_base_url
          type
          s
          (T.dispatch_thunk get_credential type
            (get_credential_thunk T H G N platform vars now type)
            s)
        ⊎ IsFailed type s (
            T.dispatch_thunk get_credential type
              (get_credential_thunk T H G N platform vars now type)
              s)
  get_credential_thunk-IsStored type s =
      rw
        (laws.dispatches get_credential type (get_credential_thunk T H G N platform vars now type)
          s)
        (settled_credential type s
          (get_credential_thunk T H G N platform vars now type
            (dispatched (get_credential (pending type)) s))
          refl)
