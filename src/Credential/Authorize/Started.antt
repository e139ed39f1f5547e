-- ===== src/Credential/Authorize/Started.antt =====
-- `startUserAuthorization` of src/credential/issuance/03-start-user-authorization.ts: what holds when
-- it returns.
use io_react_native_wallet_i.Base.{
  ◌≡◌, refl, sym, ap, ◌∙◌, ℕ, ◌<◌, String, true, contains, [], ◌∷◌, inl, inr, Bool-cases, arith,
  ◌==◌, if◌then◌else◌,
}
use io_react_native_wallet_i.Jwk.{Jwk}
use io_react_native_wallet_i.Host.{Host, CryptoContext}
use io_react_native_wallet_i.Errors.Result.{Result, ok, ok-injective}
use io_react_native_wallet_i.Promise.{World, pure}
use io_react_native_wallet_i.Promise.Steps.{>>=-eq-returned, step}
use io_react_native_wallet_i.Random.{generate_random_alpha_numeric_string}
use io_react_native_wallet_i.Random.Alphabet.{
  IsAlphanumeric, generate_random_alpha_numeric_string-IsAlphanumeric,
}
use io_react_native_wallet_i.Par.{make_par_request}
use io_react_native_wallet_i.Par.Pushed.{
  IsPushed, after_nothing-IsPushed, make_par_request-IsPushed,
  generate_random_alpha_numeric_string-sent,
}
use io_react_native_wallet_i.Trust.Entities.{IssuerMetadata}
use io_react_native_wallet_i.Credential.Select.{
  response_mode, select_credential_definition, select_response_mode,
}
use io_react_native_wallet_i.Credential.Select.Choices.{
  IsSelected, select_credential_definition-IsSelected,
}
use io_react_native_wallet_i.Credential.Authorize.{
  UserAuthorization, par_request, push_authorization, start_user_authorization,
}

-- A PID is answered in the query of the redirect url, every other credential in a form.
abbrev mode_of : String → String
mode_of credential_type =
    if credential_type == "PersonIdentificationData" then "query" else "form_post.jwt"

-- The client is the key of the wallet instance, the definition has the asked type and the format of a
-- configuration of the issuer, the issuer supports the response mode of the type, and one request was pushed, for that
-- definition and mode and with the returned verifier.
pub record IsStarted (H : Host) (conf : IssuerMetadata) (credential_type : String)
    (ctx : CryptoContext) (attestation redirect_uri : String) (u : UserAuthorization)
    (before after : World) : Type 0 where
  pub key : Jwk
  pub has_key : ctx.get_public_key ≡ ok key
  pub has_client : u.client_id ≡ key.kid
  pub has_verifier : IsAlphanumeric 64 u.code_verifier
  pub selected : IsSelected conf credential_type u.credential_definition
  pub supported :
      contains conf.oauth_authorization_server.response_modes_supported (mode_of credential_type)
      ≡ true
  pub pushed :
      IsPushed H ctx
        (record {
          client_id = key.kid;
          code_verifier = u.code_verifier;
          redirect_uri = redirect_uri;
          response_mode = mode_of credential_type;
          par_endpoint = conf.oauth_authorization_server.pushed_authorization_request_endpoint;
          wallet_instance_attestation = attestation;
          authorization_details = u.credential_definition ∷ [];
          assertion_type = "urn:ietf:params:oauth:client-assertion-type:jwt-client-attestation";
        })
        u.issuer_request_uri
        before
        after

returned-IsStarted :
    (H : Host) {conf : IssuerMetadata} {credential_type : String} {ctx : CryptoContext}
    {attestation redirect_uri : String} {u v : UserAuthorization} {w before after : World}
    → IsStarted H conf credential_type ctx attestation redirect_uri v w before
    → ◌≡◌ {A = Result UserAuthorization × World} (ok v, before) (ok u, after)
    → IsStarted H conf credential_type ctx attestation redirect_uri u w after
returned-IsStarted H started same =
    rw (ok-injective (ap (λ p. p.0) (sym same)), ap (λ p. p.1) (sym same)) started

select_response_mode-eq-ok :
    (conf : IssuerMetadata) (credential_type : String) {mode : String}
    → select_response_mode conf credential_type ≡ ok mode
    → (response_mode credential_type ≡ mode)
      × (contains conf.oauth_authorization_server.response_modes_supported
            (response_mode credential_type)
          ≡ true)
unfolding select_response_mode
select_response_mode-eq-ok conf credential_type h =
    elim (Bool-cases (
      contains conf.oauth_authorization_server.response_modes_supported
        (response_mode credential_type))) [
          | inl holds ↦ (ok-injective (sym (rw holds refl) ∙ h), holds)
          | inr fails ↦ absurd (ground arith)
        ]

module _ (H : Host) (in_bounds : (n : ℕ) → H.random_below 36 n < 36) where
  -- If the random source stays below its bound and startUserAuthorization returns, the client id
  -- is the key id of the wallet instance, the code verifier has 64 letters and digits, the
  -- definition has the asked type as its id and the format of a configuration of the issuer whose
  -- key contains the type, and the issuer supports the response mode of the type, which is query
  -- for a PID and form_post.jwt otherwise. One request was sent: a form with the client id, the
  -- S256 challenge of the verifier, the attestation with a proof by its key, and a request object
  -- that is signed with that key and has the challenge, the definition, the mode and the redirect
  -- uri. It was answered with status 201 and the returned request uri.
  pub start_user_authorization-IsStarted :
      (conf : IssuerMetadata) (credential_type : String) (ctx : CryptoContext)
      (attestation redirect_uri : String) (w : World) {u : UserAuthorization} {w' : World}
      → start_user_authorization H conf credential_type ctx attestation redirect_uri w ≡ (ok u, w')
      → IsStarted H conf credential_type ctx attestation redirect_uri u w w'
  unfolding start_user_authorization push_authorization
  start_user_authorization-IsStarted conf credential_type ctx attestation redirect_uri w {u} {w'}
        h =
      let (key, e1, h1) = step ctx.get_public_key _ w h in
      let (verifier, w1, e2, h2) =
        >>=-eq-returned (generate_random_alpha_numeric_string H 64)
          (push_authorization H conf credential_type ctx attestation redirect_uri key.kid) w h1 in
      let (good, e3, is_good) =
        generate_random_alpha_numeric_string-IsAlphanumeric H in_bounds 64 w in
      let (definition, e4, h4) = step (select_credential_definition conf credential_type) _ w1 h2 in
      let (mode, e5, h5) = step (select_response_mode conf credential_type) _ w1 h4 in
      let (uri, w2, e6, h6) =
        >>=-eq-returned
          (make_par_request H ctx
            (par_request H conf attestation redirect_uri key.kid verifier mode definition))
          (λ uri. pure (record {
            issuer_request_uri = uri;
            client_id = key.kid;
            code_verifier = verifier;
            credential_definition = definition;
          }))
          w1 h5 in
      let (same_mode, supported) = select_response_mode-eq-ok conf credential_type e5 in
      returned-IsStarted H
        (record {
          key = key;
          has_key = e1;
          has_client = refl;
          has_verifier = rw (ok-injective (ap (λ p. p.0) (sym e2 ∙ e3))) is_good;
          selected = select_credential_definition-IsSelected conf credential_type definition e4;
          supported = supported;
          pushed = rw same_mode (
              after_nothing-IsPushed H (generate_random_alpha_numeric_string-sent H 64 w e2) (
                make_par_request-IsPushed H ctx
                  (par_request H conf attestation redirect_uri key.kid verifier mode definition) w1
                  e6));
        })
        h6
