-- ===== src/Credential/Status.antt =====
-- src/credential/status: the request of a status attestation and its verification.
pub mod Bound
use io_react_native_wallet_i.Base.{
  ℕ, String, true, Option, none, some, [], ◌∷◌, ◌<>◌, before, has_char, if◌then◌else◌,
}
use io_react_native_wallet_i.Value.{Value, prop, obj, maybe_string}
use io_react_native_wallet_i.Zod
use io_react_native_wallet_i.Zod.{Zod, Schema, parse}
use io_react_native_wallet_i.Jwk.{Jwk}
use io_react_native_wallet_i.Host.{Host, CryptoContext, Request, key_set}
use io_react_native_wallet_i.Errors.{Error, io_wallet_error}
use io_react_native_wallet_i.Errors.Handlers.{handle_status_attestation_error}
use io_react_native_wallet_i.Errors.Result
use io_react_native_wallet_i.Errors.Result.{Result, ok, err, guard}
use io_react_native_wallet_i.Promise.{Async, ◌>>=◌, lift, catch_with, draw_uuid}
use io_react_native_wallet_i.SdJwt.Types.{parse_unix_time, parse_cnf}
use io_react_native_wallet_i.SdJwt.Decode.{token_value, tilde}
use io_react_native_wallet_i.Trust.Entities.{IssuerMetadata}
use io_react_native_wallet_i.Credential.Parse.{is_bound_to, kid_text}
use io_react_native_wallet_i.Credential.Obtain.{fetch_json}

pub record ParsedStatusAttestation : Type 0 where
  pub typ : String
  pub alg : String
  pub kid : Option String
  pub credential_hash_alg : String
  pub credential_hash : String
  pub cnf_jwk : Jwk
  pub exp : ℕ
  pub iat : ℕ

module _ (z : Zod) where
  unfoldable pub parse_status_attestation_response : Schema String
  parse_status_attestation_response v =
      Zod.◌>>=◌ (z.object v) λ o. z.string (prop "status_attestation" o)

  unfoldable pub parse_status_attestation : Schema ParsedStatusAttestation
  parse_status_attestation v = Zod.◌>>=◌ (z.object v) λ o.
      Zod.◌>>=◌ (z.object (prop "header" o)) λ header.
        Zod.◌>>=◌ (z.literal "status-attestation+jwt" (prop "typ" header)) λ typ.
          Zod.◌>>=◌ (z.string (prop "alg" header)) λ alg.
            Zod.◌>>=◌ (z.optional z.string (prop "kid" header)) λ kid.
              Zod.◌>>=◌ (z.object (prop "payload" o)) λ payload.
                Zod.◌>>=◌ (z.string (prop "credential_hash_alg" payload)) λ hash_alg.
                  Zod.◌>>=◌ (z.string (prop "credential_hash" payload)) λ hash.
                    Zod.◌>>=◌ (parse_cnf z (prop "cnf" payload)) λ cnf_jwk.
                      Zod.◌>>=◌ (parse_unix_time z (prop "exp" payload)) λ exp.
                        Zod.◌>>=◌ (parse_unix_time z (prop "iat" payload)) λ iat. some (record {
                          typ = typ;
                          alg = alg;
                          kid = kid;
                          credential_hash_alg = hash_alg;
                          credential_hash = hash;
                          cnf_jwk = cnf_jwk;
                          exp = exp;
                          iat = iat;
                        })

module _ (H : Host) where
  -- `getCredentialHashWithouDiscloures` of src/utils/misc.ts.
  unfoldable pub credential_hash : String → Result String
  credential_hash credential =
      if has_char tilde credential
      then ok (H.sha256 (before tilde credential))
      else err (io_wallet_error "Invalid credential format")

  abbrev pub status_request : String → String → Request
  status_request url credential_pop = record {
    url = url;
    method = "POST";
    headers = ("Content-Type", "application/json") ∷ [];
    body = some (H.json_stringify (obj (("credential_pop", Value.string credential_pop) ∷ [])));
  }

  sign_credential_pop : CryptoContext → Jwk → String → String → String → Result String
  sign_credential_pop ctx jwk url jti hash = H.jwt_sign ctx (record {
    payload =
        ("aud", Value.string url)
        ∷ ("jti", Value.string jti)
        ∷ ("credential_hash", Value.string hash)
        ∷ ("credential_hash_alg", Value.string "S256")
        ∷ [];
    protected_header =
        ("alg", Value.string "ES256")
        ∷ ("typ", Value.string "status-attestation-request+jwt")
        ∷ ("kid", maybe_string jwk.kid)
        ∷ [];
    audience = none;
    issuer = none;
    issued_at = true;
    expiration_time = some (Value.string "5m");
  })

  unfoldable pub status_attestation : IssuerMetadata → String → CryptoContext → Async String
  unfolding sign_credential_pop
  status_attestation issuer_conf credential ctx = do
    let url = issuer_conf.openid_credential_issuer.status_attestation_endpoint
    jwk ← lift ctx.get_public_key
    hash ← lift (credential_hash credential)
    jti ← draw_uuid H
    credential_pop ← lift (sign_credential_pop ctx jwk url jti hash)
    catch_with (handle_status_attestation_error H.json_stringify) (do
      json ← fetch_json H 201 (status_request url credential_pop)
      lift (parse H.zod "StatusAttestationResponse" (parse_status_attestation_response H.zod) json))

  abbrev pub status_binding_message : Jwk → Jwk → String
  status_binding_message cnf holder =
      "Failed to verify holder binding for status attestation, expected kid: "
      <> (kid_text holder.kid <> (", got: " <> kid_text cnf.kid))

  -- The body of the `try`.
  unfoldable pub verify_status :
      IssuerMetadata → String → CryptoContext → Result ParsedStatusAttestation
  verify_status issuer_conf token ctx =
      Result.◌>>=◌ (H.jwt_verify token (key_set issuer_conf.openid_credential_issuer.jwks)) λ _.
        Result.◌>>=◌ (H.jwt_decode token) λ jwt.
          Result.◌>>=◌
            (parse H.zod "ParsedStatusAttestation" (parse_status_attestation H.zod)
              (token_value jwt))
            λ parsed. Result.◌>>=◌ ctx.get_public_key λ holder.
              Result.◌>>=◌
                (guard (is_bound_to parsed.cnf_jwk holder)
                  (io_wallet_error (status_binding_message parsed.cnf_jwk holder)))
                λ _. ok parsed

  -- `error_json` is `JSON.stringify` of a thrown error.
  unfoldable pub verify_and_parse_status_attestation :
      (Error → String) → IssuerMetadata → String → CryptoContext → Result ParsedStatusAttestation
  verify_and_parse_status_attestation error_json issuer_conf token ctx =
      elim (verify_status issuer_conf token ctx) [
        | ok parsed ↦ ok parsed
        | err e ↦ err (io_wallet_error ("Failed to verify status attestation: " <> error_json e))
      ]
