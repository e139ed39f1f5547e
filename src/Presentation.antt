-- ===== src/Presentation.antt =====
-- src/credential/presentation: the request object of 03-get-request-object.ts and the choice of the
-- key for encryption of 04-send-authorization-response.ts.
pub mod Authentic
mod Tests
use io_react_native_wallet_i.Base.{
  ℕ, String, Bool, true, false, Option, none, some, List, [], ◌∷◌, ◌==◌, ◌<>◌, ◌&&◌, find?, filter,
  if◌then◌else◌,
}
use io_react_native_wallet_i.Value.{Value, prop}
use io_react_native_wallet_i.Zod
use io_react_native_wallet_i.Zod.{Zod, Schema, parse}
use io_react_native_wallet_i.Jwk.{Jwk}
use io_react_native_wallet_i.Host.{Host, CryptoContext, Request, one_key}
use io_react_native_wallet_i.Errors.{new_no_suitable_keys, foreign}
use io_react_native_wallet_i.Errors.Result
use io_react_native_wallet_i.Errors.Result.{Result, ok, err, from_option}
use io_react_native_wallet_i.Promise.{Async, ◌>>=◌, lift, send, draw_uuid}
use io_react_native_wallet_i.Http.{has_status_or_throw, unexpected_status, body_json}
use io_react_native_wallet_i.Tokens.{create_dpop_token}
use io_react_native_wallet_i.SdJwt.Types.{parse_unix_time}
use io_react_native_wallet_i.Trust.Types.{RelyingPartyMetadata}

pub record RequestObject : Type 0 where
  pub iss : String
  pub iat : ℕ
  pub exp : ℕ
  pub state : String
  pub nonce : String
  pub response_uri : String
  pub client_id : String
  pub scope : String

module _ (z : Zod) where
  unfoldable pub parse_request_object : Schema RequestObject
  parse_request_object v = Zod.◌>>=◌ (z.object v) λ o. Zod.◌>>=◌ (z.string (prop "iss" o)) λ iss.
      Zod.◌>>=◌ (parse_unix_time z (prop "iat" o)) λ iat.
        Zod.◌>>=◌ (parse_unix_time z (prop "exp" o)) λ exp.
          Zod.◌>>=◌ (z.string (prop "state" o)) λ state.
            Zod.◌>>=◌ (z.string (prop "nonce" o)) λ nonce.
              Zod.◌>>=◌ (z.string (prop "response_uri" o)) λ response_uri.
                Zod.◌>>=◌ (z.literal "vp_token" (prop "response_type" o)) λ _.
                  Zod.◌>>=◌ (z.literal "direct_post.jwt" (prop "response_mode" o)) λ _.
                    Zod.◌>>=◌ (z.string (prop "client_id" o)) λ client_id.
                      Zod.◌>>=◌ (z.literal "entity_id" (prop "client_id_scheme" o)) λ _.
                        Zod.◌>>=◌ (z.string (prop "scope" o)) λ scope. some (record {
                          iss = iss;
                          iat = iat;
                          exp = exp;
                          state = state;
                          nonce = nonce;
                          response_uri = response_uri;
                          client_id = client_id;
                          scope = scope;
                        })

-- `kid === responseJwt.protectedHeader.kid`; two missing ids are the same.
abbrev pub has_kid : Value → Jwk → Bool
has_kid (Value.string kid) key = elim key.kid [ none ↦ false | some k ↦ k == kid ]
has_kid Value.undefined key = elim key.kid [ none ↦ true | some k ↦ false ]
has_kid _ key = false

is_encryption_key : Jwk → Bool
is_encryption_key key = elim key.usage [ none ↦ false | some u ↦ u == "enc" && key.kty == "RSA" ]

first_key : List Jwk → Result Jwk
first_key [] = err (new_no_suitable_keys "Encrypt with RP public key")
first_key (key ∷ keys) = ok key

unfoldable pub choose_rsa_public_key_to_encrypt : RelyingPartyMetadata → Result Jwk
unfolding first_key is_encryption_key
choose_rsa_public_key_to_encrypt rp = first_key (filter is_encryption_key rp.jwks)

module _ (H : Host) where
  -- The library takes texts only.
  abbrev pub response_text : Value → Result String
  response_text (Value.string s) = ok s
  response_text _ = err (foreign "no text")

  -- What is done with the encoded token: the decoding, the signature and the shape.
  unfoldable pub authenticate : RelyingPartyMetadata → String → Result RequestObject
  authenticate rp token = Result.◌>>=◌ (H.jwt_decode token) λ jwt.
      Result.◌>>=◌
        (from_option (find? (has_kid (prop "kid" jwt.protected_header)) rp.jwks)
          (new_no_suitable_keys "Request Object signature verification"))
        λ key.
          Result.◌>>=◌ (H.jwt_verify token (one_key key))
            λ _. parse H.zod "RequestObject" (parse_request_object H.zod) jwt.payload

  abbrev pub object_request : String → String → String → Request
  object_request request_uri attestation dpop = record {
    url = request_uri;
    method = "GET";
    headers = ("Authorization", "DPoP " <> attestation) ∷ ("DPoP", dpop) ∷ [];
    body = none;
  }

  unfoldable pub get_request_object :
      String → RelyingPartyMetadata → CryptoContext → String → Async RequestObject
  get_request_object request_uri rp wia_ctx attestation = do
    jti ← draw_uuid H
    dpop ← lift (
        create_dpop_token H
          (record {
            jti = jti;
            htm = "GET";
            htu = request_uri;
            ath = some (H.sha256_to_base64 attestation);
          })
          wia_ctx)
    res ← send H (object_request request_uri attestation dpop)
    checked ← lift (has_status_or_throw H 200 (unexpected_status H) res)
    json ← lift (body_json H checked)
    token ← lift (response_text (prop "response" json))
    lift (authenticate rp token)
