-- ===== src/Credential/Obtain.antt =====
-- src/credential/issuance/06-obtain-credential.ts, with the types of
-- src/credential/issuance/types.ts and src/utils/par.ts that it uses.
pub mod Statuses
use io_react_native_wallet_i.Base.{
  ℕ, String, Bool, Option, none, some, List, [], ◌∷◌, ◌==◌, ◌<>◌, ◌&&◌, any,
}
use io_react_native_wallet_i.Value.{Value, prop, obj, arr}
use io_react_native_wallet_i.Zod
use io_react_native_wallet_i.Zod.{Zod, Schema}
use io_react_native_wallet_i.Host.{Host, CryptoContext, Request, Response}
use io_react_native_wallet_i.Errors.{Error, new_validation_failed}
use io_react_native_wallet_i.Errors.Handlers.{handle_obtain_credential_error}
use io_react_native_wallet_i.Errors.Result
use io_react_native_wallet_i.Errors.Result.{Result, ok, err, guard}
use io_react_native_wallet_i.Promise.{Async, ◌>>=◌, lift, catch_with, send, draw_uuid}
use io_react_native_wallet_i.Http.{has_status_or_throw, unexpected_status, body_json}
use io_react_native_wallet_i.Tokens.{create_dpop_token, create_nonce_proof}
use io_react_native_wallet_i.Trust.Entities.{IssuerMetadata}

pub record AuthorizationDetail : Type 0 where
  pub credential_configuration_id : String
  pub format : String
  pub type : String

pub record TokenResponse : Type 0 where
  pub access_token : String
  pub authorization_details : List AuthorizationDetail
  pub c_nonce : String
  pub c_nonce_expires_in : ℕ
  pub expires_in : ℕ
  pub token_type : String

pub record CredentialResponse : Type 0 where
  pub c_nonce : String
  pub c_nonce_expires_in : ℕ
  pub credential : String
  pub format : String

module _ (z : Zod) where
  supported_format : Schema String
  supported_format = z.union (z.literal "vc+sd-jwt") (z.literal "vc+mdoc-cbor")

  unfoldable pub parse_authorization_detail : Schema AuthorizationDetail
  unfolding supported_format
  parse_authorization_detail v = Zod.◌>>=◌ (z.object v) λ o.
      Zod.◌>>=◌ (z.string (prop "credential_configuration_id" o)) λ id.
        Zod.◌>>=◌ (supported_format (prop "format" o)) λ format.
          Zod.◌>>=◌ (z.literal "openid_credential" (prop "type" o))
            λ type. some (record { credential_configuration_id = id; format = format; type = type })

  unfoldable pub parse_credential_response : Schema CredentialResponse
  unfolding supported_format
  parse_credential_response v = Zod.◌>>=◌ (z.object v) λ o.
      Zod.◌>>=◌ (z.string (prop "c_nonce" o)) λ c_nonce.
        Zod.◌>>=◌ (z.number (prop "c_nonce_expires_in" o)) λ expires.
          Zod.◌>>=◌ (z.string (prop "credential" o)) λ credential.
            Zod.◌>>=◌ (supported_format (prop "format" o)) λ format. some (record {
              c_nonce = c_nonce;
              c_nonce_expires_in = expires;
              credential = credential;
              format = format;
            })

abbrev pub same_detail : AuthorizationDetail → AuthorizationDetail → Bool
same_detail c d =
    c.credential_configuration_id == d.credential_configuration_id
    && (c.format == d.format && c.type == d.type)

module _ (H : Host) where
  abbrev pub credential_request_body : AuthorizationDetail → String → Value
  credential_request_body definition signed_nonce_proof = obj (
      (
        "credential_definition",
        obj (("type", arr (Value.string definition.credential_configuration_id ∷ [])) ∷ []),
      )
      ∷ ("format", Value.string definition.format)
      ∷ (
        "proof",
        obj (("jwt", Value.string signed_nonce_proof) ∷ ("proof_type", Value.string "jwt") ∷ []),
      )
      ∷ [])

  abbrev pub credential_request :
      String → TokenResponse → AuthorizationDetail → String → String → Request
  credential_request url access_token definition signed_nonce_proof dpop = record {
    url = url;
    method = "POST";
    headers =
        ("Content-Type", "application/json")
        ∷ ("DPoP", dpop)
        ∷ ("Authorization", access_token.token_type <> (" " <> access_token.access_token))
        ∷ [];
    body = some (H.json_stringify (credential_request_body definition signed_nonce_proof));
  }

  -- `appFetch(...).then(hasStatusOrThrow(status)).then((res) => res.json())`
  abbrev pub fetch_json : ℕ → Request → Async Value
  fetch_json status request = do
    res ← send H request
    checked ← lift (has_status_or_throw H status (unexpected_status H) res)
    lift (body_json H checked)

  abbrev pub missing_definition : Error
  missing_definition =
      new_validation_failed H.json_stringify
        "The access token response does not contain the requested credential" "unspecified"
        "unspecified"

  -- `safeParse`, and the check of its success.
  abbrev pub read_credential : Value → Result CredentialResponse
  read_credential body = elim (parse_credential_response H.zod body) [
    | some response ↦ ok response
    | none ↦ err (
        new_validation_failed H.json_stringify "Credential Response validation failed" "unspecified"
          (H.zod.error_message "CredentialResponse" body))
  ]

  unfoldable pub obtain_credential :
      IssuerMetadata
      → TokenResponse
      → Option String
      → AuthorizationDetail
      → (dpop_crypto_context credential_crypto_context : CryptoContext) → Async CredentialResponse
  obtain_credential issuer_conf access_token client_id definition dpop_ctx credential_ctx = do
    let url = issuer_conf.openid_credential_issuer.credential_endpoint
    proof ← lift (create_nonce_proof H access_token.c_nonce client_id url credential_ctx)
    _ ← lift (
        guard (any (λ c. same_detail c definition) access_token.authorization_details)
          missing_definition)
    jti ← draw_uuid H
    dpop ← lift (
        create_dpop_token H
          (record {
            htm = "POST";
            htu = url;
            jti = jti;
            ath = some (H.sha256_to_base64 access_token.access_token);
          })
          dpop_ctx)
    body ←
        catch_with (handle_obtain_credential_error H.json_stringify)
          (fetch_json 200 (credential_request url access_token definition proof dpop))
    lift (read_credential body)
