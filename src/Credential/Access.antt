-- ===== src/Credential/Access.antt =====
-- src/credential/issuance/05-authorize-access.ts, with the token response of
-- src/credential/issuance/types.ts.
pub mod Granted
use io_react_native_wallet_i.Base.{String, Option, none, some, [], ◌∷◌}
use io_react_native_wallet_i.Base.Dict.{Dict}
use io_react_native_wallet_i.Value.{Value, prop}
use io_react_native_wallet_i.Zod.{Zod, Schema}
use io_react_native_wallet_i.Zod
use io_react_native_wallet_i.Host.{Host, CryptoContext, Request}
use io_react_native_wallet_i.Errors.{new_validation_failed}
use io_react_native_wallet_i.Errors.Result.{Result, ok, err}
use io_react_native_wallet_i.Promise.{Async, ◌>>=◌, lift, send, draw_uuid}
use io_react_native_wallet_i.Http.{has_status_or_throw, issuer_response, body_json}
use io_react_native_wallet_i.Tokens.{create_dpop_token, create_pop_token}
use io_react_native_wallet_i.Wallet.{decode}
use io_react_native_wallet_i.Par.{audience_of, client_assertion, form_request}
use io_react_native_wallet_i.Trust.Entities.{IssuerMetadata}
use io_react_native_wallet_i.Credential.Parse.{kid_text}
use io_react_native_wallet_i.Credential.Authorize.{assertion_type}
use io_react_native_wallet_i.Credential.Obtain.{TokenResponse, parse_authorization_detail}

module _ (z : Zod) where
  unfoldable pub parse_token_response : Schema TokenResponse
  parse_token_response v = Zod.◌>>=◌ (z.object v) λ o.
      Zod.◌>>=◌ (z.string (prop "access_token" o)) λ access_token.
        Zod.◌>>=◌ (z.array (parse_authorization_detail z) (prop "authorization_details" o))
          λ details. Zod.◌>>=◌ (z.string (prop "c_nonce" o)) λ c_nonce.
            Zod.◌>>=◌ (z.number (prop "c_nonce_expires_in" o)) λ nonce_expires.
              Zod.◌>>=◌ (z.number (prop "expires_in" o)) λ expires.
                Zod.◌>>=◌ (z.string (prop "token_type" o)) λ token_type. some (record {
                  access_token = access_token;
                  authorization_details = details;
                  c_nonce = c_nonce;
                  c_nonce_expires_in = nonce_expires;
                  expires_in = expires;
                  token_type = token_type;
                })

-- What the access is asked for with, the issuer and the keys left out.
pub record AccessRequest : Type 0 where
  pub code : String
  pub client_id : Option String
  pub redirect_uri : String
  pub code_verifier : String
  pub wallet_instance_attestation : String

module _ (H : Host) where
  abbrev pub token_fields : AccessRequest → String → Dict String
  token_fields a signed_pop =
      ("grant_type", "authorization_code")
      ∷ ("client_id", kid_text a.client_id)
      ∷ ("code", a.code)
      ∷ ("redirect_uri", a.redirect_uri)
      ∷ ("code_verifier", a.code_verifier)
      ∷ ("client_assertion_type", assertion_type)
      ∷ ("client_assertion", client_assertion a.wallet_instance_attestation signed_pop)
      ∷ []

  abbrev pub token_request : String → AccessRequest → (dpop signed_pop : String) → Request
  token_request url a dpop signed_pop =
      form_request H url (("DPoP", dpop) ∷ []) (token_fields a signed_pop)

  abbrev pub read_token : Value → Result TokenResponse
  read_token body = elim (parse_token_response H.zod body) [
    | some response ↦ ok response
    | none ↦ err (
        new_validation_failed H.json_stringify "Token Response validation failed" "unspecified"
          (H.zod.error_message "TokenResponse" body))
  ]

  unfoldable pub authorize_access :
      IssuerMetadata → AccessRequest → (wia_ctx dpop_ctx : CryptoContext) → Async TokenResponse
  authorize_access issuer_conf a wia_ctx dpop_ctx = do
    par_url ←
        lift
          (H.parse_url issuer_conf.oauth_authorization_server.pushed_authorization_request_endpoint)
    wia ← lift (decode H a.wallet_instance_attestation)
    let url = issuer_conf.oauth_authorization_server.token_endpoint
    dpop_jti ← draw_uuid H
    dpop ← lift (
        create_dpop_token H (record { htm = "POST"; htu = url; jti = dpop_jti; ath = none })
          dpop_ctx)
    pop_jti ← draw_uuid H
    signed_pop ← lift (create_pop_token H pop_jti (audience_of par_url) wia.payload.cnf_kid wia_ctx)
    res ← send H (token_request url a dpop signed_pop)
    checked ← lift (has_status_or_throw H 200 (issuer_response H) res)
    body ← lift (body_json H checked)
    lift (read_token body)
