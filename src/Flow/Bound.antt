-- ===== src/Flow/Bound.antt =====
-- What a flow of example/src/utils/credential.ts that returns has obtained.
use io_react_native_wallet_i.Base.{◌≡◌, sym, ap, ◌∙◌, String, Bool, true, false, List, ◌∷◌, ◌+◌}
use io_react_native_wallet_i.Base.Dict.{Dict}
use io_react_native_wallet_i.Host.{Host, KeyCall, generate}
use io_react_native_wallet_i.Errors.Result.{ok, ok-injective}
use io_react_native_wallet_i.Promise.{World, Async, draw_uuid, generate_key}
use io_react_native_wallet_i.Promise.Steps.{lift-eq, step}
use io_react_native_wallet_i.Promise.Sequence.{◌>>=◌, >>=-returned}
use io_react_native_wallet_i.Promise.Grows.{
  IsGrown, IsLonger, Grows, IsGrown-trans, IsGrown-of_run, lift-Grows, pure-Grows,
}
use io_react_native_wallet_i.Credential.Grows.{
  evaluate_issuer_trust-Grows, start_user_authorization-Grows, get_requested_credential-Grows,
  complete_user_authorization-Grows, authorize_access-Grows, obtain_credential-Grows,
}
use io_react_native_wallet_i.Flow.Grows.{live-Grows, regenerate_crypto_key-Grows}
use io_react_native_wallet_i.Keys.{dpop_keytag, LiveContext, create_crypto_context_for}
use io_react_native_wallet_i.Trust.Entities.{IssuerMetadata}
use io_react_native_wallet_i.Credential.Issuer.{evaluate_issuer_trust}
use io_react_native_wallet_i.Credential.Parse.{
  Attribute, VerifiedCredential, verify_and_parse_credential,
}
use io_react_native_wallet_i.Credential.Parse.Binding.{IsBound, verify_and_parse-IsBound}
use io_react_native_wallet_i.Store.{PidResult, CredentialResult, CredentialType}
use io_react_native_wallet_i.Flow.{
  Authorized, FlowInput, access_of, type_name, new_credential_key, obtain_and_parse, authorize_pid,
  get_pid_cie_id, authorize_credential, get_credential,
}

-- The world once the key of a credential is drawn and generated.
abbrev pub keyed : String → World → World
keyed key_tag w = record w { drawn = w.drawn + 1; key_calls = generate key_tag ∷ w.key_calls }

-- The key of the tag is generated first. Then the configuration of the issuer at the url is read, and
-- what that sent is among what the flow sent. The credential is of that issuer, bound to the key of the
-- tag as the key store has it after the calls of the flow up to the check, the generation among them.
pub record IsObtained (H : Host) (issuer_url key_tag credential : String) (parsed : Dict Attribute)
    (ignore_missing : Bool) (start after : World) : Type 0 where
  pub conf : IssuerMetadata
  pub answered : World
  pub calls : List KeyCall
  pub verified : VerifiedCredential
  pub has_key_tag : key_tag ≡ H.uuid start.drawn
  pub generated : H.change_keys start.key_calls (generate key_tag) ≡ ok tt
  pub has_conf : evaluate_issuer_trust H issuer_url (keyed key_tag start) ≡ (ok conf, answered)
  pub read_within : IsGrown answered after
  pub after_generation : IsLonger (generate key_tag ∷ start.key_calls) calls
  pub within : IsLonger calls after.key_calls
  pub bound :
      IsBound H conf credential
        (create_crypto_context_for H key_tag calls)
        ignore_missing
        false
        verified
  pub has_attributes : parsed ≡ verified.parsed_credential

module _ (H : Host) where
  new_credential_key-eq :
      (w : World) {key_tag : String} {w' : World}
      → new_credential_key H w ≡ (ok key_tag, w')
      → (key_tag ≡ H.uuid w.drawn)
        × (H.change_keys w.key_calls (generate key_tag) ≡ ok tt)
        × (w' ≡ keyed key_tag w)
  unfolding new_credential_key draw_uuid generate_key ◌>>=◌
  new_credential_key-eq w h =
      let (u, e1, h1) = step (H.change_keys w.key_calls (generate (H.uuid w.drawn))) _ _ h in
      let same = ok-injective (ap (λ p. p.0) h1) in
      (
        sym same,
        ap (λ t. H.change_keys w.key_calls (generate t)) (sym same) ∙ e1,
        sym (ap (λ p. p.1) h1) ∙ ap (λ t. keyed t w) same,
      )

  obtain_and_parse-IsBound :
      (a : Authorized) (wia_ctx : LiveContext) (key_tag : String) (ignore_missing : Bool)
      (w : World) {obtained : String × Dict Attribute} {w' : World}
      → obtain_and_parse H a wia_ctx key_tag ignore_missing w ≡ (ok obtained, w')
      → (middle : World) × IsGrown w middle
        × IsGrown middle w'
        × (verified : VerifiedCredential) × IsBound H a.issuer_conf obtained.0
            (create_crypto_context_for H key_tag middle.key_calls)
            ignore_missing
            false
            verified
        × (obtained.1 ≡ verified.parsed_credential)
  unfolding obtain_and_parse
  obtain_and_parse-IsBound a wia_ctx key_tag ignore_missing w {obtained} h =
      let (_, w1, g1, h1) = >>=-returned _ _ _ h in
      let (wia, w2, g2, h2) = >>=-returned _ _ _ h1 in
      let (dpop, w3, g3, h3) = >>=-returned _ _ _ h2 in
      let (token, w4, g4, h4) = >>=-returned _ _ _ h3 in
      let (ctx, w5, e5, h5) = >>=-returned _ _ _ h4 in
      let (response, w6, e6, h6) = >>=-returned _ _ _ h5 in
      let (verified, w7, e7, h7) = >>=-returned _ _ _ h6 in
      let same = ok-injective (ap (λ p. p.0) h7) in
      let same_ctx = ok-injective (ap (λ p. p.0) e5) in
      let e8 = (lift-eq _ w6 e7).0 in
      (
        w4,
        IsGrown-trans (IsGrown-of_run _ (regenerate_crypto_key-Grows H dpop_keytag) g1) (
            IsGrown-trans (IsGrown-of_run _ (live-Grows wia_ctx) g2) (
              IsGrown-trans
                (IsGrown-of_run _ (live-Grows (create_crypto_context_for H dpop_keytag)) g3)
                (IsGrown-of_run _ (authorize_access-Grows H a.issuer_conf (access_of a) wia dpop)
                  g4))),
        IsGrown-trans (IsGrown-of_run _ (live-Grows (create_crypto_context_for H key_tag)) e5) (
            IsGrown-trans
              (IsGrown-of_run _
                (obtain_credential-Grows H a.issuer_conf token a.client_id a.credential_definition
                  dpop ctx)
                e6)
              (IsGrown-trans (IsGrown-of_run _ (lift-Grows _) e7)
                (IsGrown-of_run _ (pure-Grows _) h7))),
        verified,
        verify_and_parse-IsBound H a.issuer_conf obtained.0 response.format
            (create_crypto_context_for H key_tag w4.key_calls) ignore_missing false verified
            (ap
                (λ c.
                  verify_and_parse_credential H a.issuer_conf c response.format
                    (create_crypto_context_for H key_tag w4.key_calls) ignore_missing false)
                (ap (λ p. p.0) (sym same))
              ∙ ap
                  (λ c.
                    verify_and_parse_credential H a.issuer_conf response.credential response.format
                      c ignore_missing false)
                  same_ctx
              ∙ e8),
        ap (λ p. p.1) (sym same),
      )

  authorize_pid-conf :
      (open_url : String → String → Async String)
      (opens : (redirect_uri auth_url : String) → Grows (open_url redirect_uri auth_url))
      (input : FlowInput) (idp_hint : String) (wia_ctx : LiveContext) (w : World) {a : Authorized}
      {w' : World}
      → authorize_pid H open_url input idp_hint wia_ctx w ≡ (ok a, w')
      → (answered : World) × (evaluate_issuer_trust H input.issuer_url w
          ≡ (ok a.issuer_conf, answered))
        × IsGrown answered w'
  unfolding authorize_pid
  authorize_pid-conf open_url opens input idp_hint wia_ctx w h =
      let (conf, w1, e1, h1) = >>=-returned _ _ _ h in
      let (wia, w2, e2, h2) = >>=-returned _ _ _ h1 in
      let (u, w3, e3, h3) = >>=-returned _ _ _ h2 in
      let (url, w4, e4, h4) = >>=-returned _ _ _ h3 in
      let (result, w5, e5, h5) = >>=-returned _ _ _ h4 in
      (
        w1,
        e1 ∙ ap (λ p. (ok p.issuer_conf, w1)) (ok-injective (ap (λ p. p.0) h5)),
        IsGrown-trans (IsGrown-of_run _ (live-Grows wia_ctx) e2) (
            IsGrown-trans
              (IsGrown-of_run _
                (start_user_authorization-Grows H conf "PersonIdentificationData" wia
                  input.wallet_instance_attestation input.redirect_uri)
                e3)
              (IsGrown-trans (IsGrown-of_run _ (opens input.redirect_uri _) e4) (
                IsGrown-trans (IsGrown-of_run _ (lift-Grows _) e5)
                  (IsGrown-of_run _ (pure-Grows _) h5)))),
      )

  authorize_credential-conf :
      (input : FlowInput) (type : CredentialType) (pid : String) (wia_ctx pid_ctx : LiveContext)
      (w : World) {a : Authorized} {w' : World}
      → authorize_credential H input type pid wia_ctx pid_ctx w ≡ (ok a, w')
      → (answered : World) × (evaluate_issuer_trust H input.issuer_url w
          ≡ (ok a.issuer_conf, answered))
        × IsGrown answered w'
  unfolding authorize_credential
  authorize_credential-conf input type pid wia_ctx pid_ctx w h =
      let (conf, w1, e1, h1) = >>=-returned _ _ _ h in
      let (wia, w2, e2, h2) = >>=-returned _ _ _ h1 in
      let (u, w3, e3, h3) = >>=-returned _ _ _ h2 in
      let (object, w4, e4, h4) = >>=-returned _ _ _ h3 in
      let (holder, w5, e5, h5) = >>=-returned _ _ _ h4 in
      let (result, w6, e6, h6) = >>=-returned _ _ _ h5 in
      (
        w1,
        e1 ∙ ap (λ p. (ok p.issuer_conf, w1)) (ok-injective (ap (λ p. p.0) h6)),
        IsGrown-trans (IsGrown-of_run _ (live-Grows wia_ctx) e2) (
            IsGrown-trans
              (IsGrown-of_run _
                (start_user_authorization-Grows H conf (type_name type) wia
                  input.wallet_instance_attestation input.redirect_uri)
                e3)
              (IsGrown-trans
                (IsGrown-of_run _
                  (get_requested_credential-Grows H u.issuer_request_uri u.client_id conf) e4)
                (IsGrown-trans (IsGrown-of_run _ (live-Grows pid_ctx) e5) (
                  IsGrown-trans
                    (IsGrown-of_run _
                      (complete_user_authorization-Grows H object wia holder pid
                        input.wallet_instance_attestation)
                      e6)
                    (IsGrown-of_run _ (pure-Grows _) h6))))),
      )

  assemble :
      (issuer_url : String) (ignore_missing : Bool) (w : World) {key_tag : String}
      {w1 w2 w3 : World} {conf : IssuerMetadata} {obtained : String × Dict Attribute}
      → new_credential_key H w ≡ (ok key_tag, w1)
      → (answered : World) × (evaluate_issuer_trust H issuer_url w1 ≡ (ok conf, answered))
        × IsGrown answered w2
      → (middle : World) × IsGrown w2 middle
        × IsGrown middle w3
        × (verified : VerifiedCredential) × IsBound H conf obtained.0
            (create_crypto_context_for H key_tag middle.key_calls)
            ignore_missing
            false
            verified
        × (obtained.1 ≡ verified.parsed_credential)
      → IsObtained H issuer_url key_tag obtained.0 obtained.1 ignore_missing w w3
  assemble issuer_url ignore_missing w e1 (answered, e2, g1)
        (middle, g3, g4, verified, bound, attributes) =
      let (has_key_tag, generated, same) = new_credential_key-eq w e1 in
      let g2 = IsGrown-trans (IsGrown-of_run _ (evaluate_issuer_trust-Grows H issuer_url) e2) g1 in
      record {
        conf = _;
        answered = answered;
        calls = middle.key_calls;
        verified = verified;
        has_key_tag = has_key_tag;
        generated = generated;
        has_conf = rw (sym same) e2;
        read_within = IsGrown-trans g1 (IsGrown-trans g3 g4);
        after_generation =
            rw (ap (λ (v : World). v.key_calls) (sym same)) (IsGrown-trans g2 g3).key_calls;
        within = g4.key_calls;
        bound = bound;
        has_attributes = attributes;
      }

  at_end :
      {url key_tag credential : String} {parsed : Dict Attribute} {ignore_missing : Bool}
      {start after after' : World}
      → IsObtained H url key_tag credential parsed ignore_missing start after
      → after ≡ after'
      → IsObtained H url key_tag credential parsed ignore_missing start after'
  at_end obtained same = rw (sym same) obtained

  pid-IsObtained :
      {url : String} {w w' : World} (p : PidResult) {q : PidResult}
      → IsObtained H url q.key_tag q.credential q.parsed_credential false w w'
      → q ≡ p
      → IsObtained H url p.key_tag p.credential p.parsed_credential false w w'
  pid-IsObtained p obtained same = rw (sym same) obtained

  credential-IsObtained :
      {url : String} {w w' : World} (c : CredentialResult) {d : CredentialResult}
      → IsObtained H url d.key_tag d.credential d.parsed_credential true w w'
      → d ≡ c
      → IsObtained H url c.key_tag c.credential c.parsed_credential true w w'
  credential-IsObtained c obtained same = rw (sym same) obtained

  -- Provided that the listener for the redirect only adds to what was sent, drawn and asked of the
  -- key store: if the PID flow returns, the tag of the PID is the next draw, which the key store
  -- generated first; then the configuration of the issuer at the given url was read, and the rest
  -- of the flow only adds to what that left; the PID is verified with the keys of that issuer and
  -- is bound to the key of the tag, as the key store has it after calls that follow the generation
  -- and are among those of the flow; its attributes are the parsed ones, and no attribute of the
  -- metadata of the issuer is missing.
  pub get_pid_cie_id-IsObtained :
      (open_url : String → String → Async String)
      (opens : (redirect_uri auth_url : String) → Grows (open_url redirect_uri auth_url))
      (input : FlowInput) (idp_hint : String) (wia_ctx : LiveContext) (w : World) {p : PidResult}
      {w' : World}
      → get_pid_cie_id H open_url input idp_hint wia_ctx w ≡ (ok p, w')
      → IsObtained H input.issuer_url p.key_tag p.credential p.parsed_credential false w w'
  unfolding get_pid_cie_id
  get_pid_cie_id-IsObtained open_url opens input idp_hint wia_ctx w {p} h =
      let (key_tag, w1, e1, h1) = >>=-returned _ _ _ h in
      let (a, w2, e2, h2) = >>=-returned _ _ _ h1 in
      let (obtained, w3, e3, h3) = >>=-returned _ _ _ h2 in
      pid-IsObtained p
        (at_end
          (assemble input.issuer_url false w e1
            (authorize_pid-conf open_url opens input idp_hint wia_ctx w1 e2)
            (obtain_and_parse-IsBound a wia_ctx key_tag false w2 e3))
          (ap (λ p. p.1) h3))
        (ok-injective (ap (λ p. p.0) h3))

  -- If the flow of another credential returns, its credential type is the asked one, and its tag
  -- is the next draw, which the key store generated first; then the configuration of the issuer at
  -- the given url was read, and the rest of the flow only adds to what that left; the credential
  -- is verified with the keys of that issuer and is bound to the key of the tag, as the key store
  -- has it after calls that follow the generation and are among those of the flow; its attributes
  -- are the parsed ones. Missing attributes are ignored.
  pub get_credential-IsObtained :
      (input : FlowInput) (type : CredentialType) (pid : String) (wia_ctx pid_ctx : LiveContext)
      (w : World) {c : CredentialResult} {w' : World}
      → get_credential H input type pid wia_ctx pid_ctx w ≡ (ok c, w')
      → (c.credential_type ≡ type)
        × IsObtained H input.issuer_url c.key_tag c.credential c.parsed_credential true w w'
  unfolding get_credential
  get_credential-IsObtained input type pid wia_ctx pid_ctx w {c} h =
      let (key_tag, w1, e1, h1) = >>=-returned _ _ _ h in
      let (a, w2, e2, h2) = >>=-returned _ _ _ h1 in
      let (obtained, w3, e3, h3) = >>=-returned _ _ _ h2 in
      let same = ok-injective (ap (λ p. p.0) h3) in
      (
        ap (λ (c : CredentialResult). c.credential_type) (sym same),
        credential-IsObtained c
            (at_end
              (assemble input.issuer_url true w e1
                (authorize_credential-conf input type pid wia_ctx pid_ctx w1 e2)
                (obtain_and_parse-IsBound a wia_ctx key_tag true w2 e3))
              (ap (λ p. p.1) h3))
            same,
      )
