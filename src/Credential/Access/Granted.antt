-- ===== src/Credential/Access/Granted.antt =====
-- `authorizeAccess` of src/credential/issuance/05-authorize-access.ts: what was sent and answered
-- when it returns.
use io_react_native_wallet_i.Base.{◌≡◌, none, some, [], ◌∷◌, ◌<>◌, ◌+◌, String}
use io_react_native_wallet_i.Value.{Value}
use io_react_native_wallet_i.Host.{Host, CryptoContext, Url}
use io_react_native_wallet_i.Errors.Result.{ok}
use io_react_native_wallet_i.Promise.{World, draw_uuid}
use io_react_native_wallet_i.Promise.Steps.{step}
use io_react_native_wallet_i.Http.{issuer_response}
use io_react_native_wallet_i.Http.Answered.{IsAnswered, read_answer-IsAnswered}
use io_react_native_wallet_i.Tokens.{create_dpop_token, create_pop_token}
use io_react_native_wallet_i.Tokens.Signed.{
  IsDpop, IsPop, create_dpop_token-IsDpop, create_pop_token-IsPop,
}
use io_react_native_wallet_i.Wallet.{decode, WalletInstanceAttestationJwt}
use io_react_native_wallet_i.Par.{audience_of}
use io_react_native_wallet_i.Trust.Entities.{IssuerMetadata}
use io_react_native_wallet_i.Credential.Obtain.{TokenResponse}
use io_react_native_wallet_i.Credential.Parse.{kid_text}
use io_react_native_wallet_i.Credential.Access.{
  AccessRequest, token_request, read_token, authorize_access,
}

-- The access was asked for at the token endpoint, with a proof by the DPoP key for that endpoint and
-- one by the wallet instance's key for the authorization server, and the answer parses.
pub record IsGranted (H : Host) (conf : IssuerMetadata) (a : AccessRequest)
    (wia_ctx dpop_ctx : CryptoContext) (t : TokenResponse) (before after : World) : Type 0 where
  pub server : Url
  pub attestation : WalletInstanceAttestationJwt
  pub dpop_jti : String
  pub dpop : String
  pub pop_jti : String
  pub pop : String
  pub body : Value
  pub has_server :
      H.parse_url conf.oauth_authorization_server.pushed_authorization_request_endpoint ≡ ok server
  pub decoded : decode H a.wallet_instance_attestation ≡ ok attestation
  pub bound :
      IsDpop H dpop_ctx dpop_jti "POST" conf.oauth_authorization_server.token_endpoint none dpop
  pub proved :
      IsPop H wia_ctx pop_jti
        (server.protocol <> ("//" <> server.hostname))
        attestation.payload.cnf_kid
        pop
  pub answered :
      IsAnswered H 200
        (record {
          url = conf.oauth_authorization_server.token_endpoint;
          method = "POST";
          headers = ("Content-Type", "application/x-www-form-urlencoded") ∷ ("DPoP", dpop) ∷ [];
          body = some (
              H.search_params (
                ("grant_type", "authorization_code")
                ∷ ("client_id", kid_text a.client_id)
                ∷ ("code", a.code)
                ∷ ("redirect_uri", a.redirect_uri)
                ∷ ("code_verifier", a.code_verifier)
                ∷ (
                  "client_assertion_type",
                  "urn:ietf:params:oauth:client-assertion-type:jwt-client-attestation",
                )
                ∷ ("client_assertion", a.wallet_instance_attestation <> ("~" <> pop))
                ∷ []));
        })
        body
        before
        after
  pub parsed : read_token H body ≡ ok t

module _ (H : Host) where
  -- If authorizeAccess returns a token response, one request was sent, to the token endpoint: a
  -- form with the grant type, the client id, the code, the redirect uri, the code verifier and the
  -- attestation with a proof by its key for the authorization server, under a DPoP proof of the
  -- DPoP key for that endpoint. Its answer has status 200 and parses to the result.
  pub authorize_access-IsGranted :
      (conf : IssuerMetadata) (a : AccessRequest) (wia_ctx dpop_ctx : CryptoContext) (w : World)
      {t : TokenResponse} {w' : World}
      → authorize_access H conf a wia_ctx dpop_ctx w ≡ (ok t, w')
      → IsGranted H conf a wia_ctx dpop_ctx t w w'
  unfolding authorize_access draw_uuid
  authorize_access-IsGranted conf a wia_ctx dpop_ctx w h =
      let url = conf.oauth_authorization_server.token_endpoint in
      let (server, e1, h1) =
        step (H.parse_url conf.oauth_authorization_server.pushed_authorization_request_endpoint) _ w
          h in
      let (wia, e2, h2) = step (decode H a.wallet_instance_attestation) _ w h1 in
      let w1 = record w { drawn = w.drawn + 1 } in
      let (dpop, e3, h3) =
        step
          (create_dpop_token H
            (record { htm = "POST"; htu = url; jti = H.uuid w.drawn; ath = none }) dpop_ctx)
          _ w1 h2 in
      let w2 = record w { drawn = w.drawn + 1 + 1 } in
      let (pop, e4, h4) =
        step
          (create_pop_token H (H.uuid (w.drawn + 1)) (audience_of server) wia.payload.cnf_kid
            wia_ctx)
          _ w2 h3 in
      let (body, answered, e5) =
        read_answer-IsAnswered H 200 (issuer_response H) (token_request H url a dpop pop)
          (read_token H) w2 h4 in
      record {
        server = server;
        attestation = wia;
        dpop_jti = H.uuid w.drawn;
        dpop = dpop;
        pop_jti = H.uuid (w.drawn + 1);
        pop = pop;
        body = body;
        has_server = e1;
        decoded = e2;
        bound = create_dpop_token-IsDpop H dpop_ctx (H.uuid w.drawn) "POST" url none e3;
        proved =
            create_pop_token-IsPop H wia_ctx (H.uuid (w.drawn + 1)) (audience_of server)
              wia.payload.cnf_kid e4;
        answered = record {
          response = answered.response;
          answered = answered.answered;
          has_status = answered.has_status;
          has_body = answered.has_body;
          sent = answered.sent;
        };
        parsed = e5;
      }
