-- ===== src/Wallet.antt =====
-- The wallet instance's attestation: src/wallet-instance-attestation/types.ts and index.ts, and the
-- trustmark that is made with it: src/credential/trustmark/get-credential-trustmark.ts.
pub mod Bound
mod Tests
use io_react_native_wallet_i.Base.{
  ℕ, ◌*◌, String, Bool, true, Option, none, some, List, [], ◌∷◌, ◌++◌, ◌==◌, ◌<>◌, leb,
  if◌then◌else◌,
}
use io_react_native_wallet_i.Base.Dict.{Dict}
use io_react_native_wallet_i.Value.{Value, prop}
use io_react_native_wallet_i.Zod.{Zod, Schema, parse}
use io_react_native_wallet_i.Zod
use io_react_native_wallet_i.Jwk.{Jwk, parse_jwk}
use io_react_native_wallet_i.Host.{Host, CryptoContext, one_key, JwtToSign}
use io_react_native_wallet_i.Errors.{io_wallet_error}
use io_react_native_wallet_i.Errors.Result.{Result, ok, err, guard, ◌>>=◌}
use io_react_native_wallet_i.SdJwt.Types.{parse_unix_time}
use io_react_native_wallet_i.SdJwt.Decode.{token_value}
use io_react_native_wallet_i.Obfuscate.{obfuscate_string}

pub record JwtHeader : Type 0 where
  pub alg : String
  pub kid : String
  pub typ : String
  pub x5c : Option (List String)
  pub trust_chain : Option (List String)

-- `cnf_kid` is the key id that the second schema of the intersection asks for.
pub record JwtPayload : Type 0 where
  pub iss : String
  pub iat : ℕ
  pub exp : ℕ
  pub cnf_jwk : Jwk
  pub cnf_kid : String

pub record VpFormats : Type 0 where
  pub vc_sd_jwt : Option (List String)
  pub vp_sd_jwt : Option (List String)

pub record WalletInstanceAttestationJwt : Type 0 where
  pub header : JwtHeader
  pub payload : JwtPayload
  pub sub : String
  pub aal : String
  pub authorization_endpoint : String
  pub response_types_supported : List String
  pub vp_formats_supported : VpFormats
  pub request_object_signing_alg_values_supported : List String
  pub presentation_definition_uri_supported : Bool

module _ (z : Zod) where
  parse_jwt_header : Schema JwtHeader
  parse_jwt_header v = Zod.◌>>=◌ (z.object v) λ o. Zod.◌>>=◌ (z.string (prop "alg" o)) λ alg.
      Zod.◌>>=◌ (z.string (prop "kid" o)) λ kid.
        Zod.◌>>=◌ (z.literal "wallet-attestation+jwt" (prop "typ" o)) λ typ.
          Zod.◌>>=◌ (z.optional (z.array z.string) (prop "x5c" o)) λ x5c.
            Zod.◌>>=◌ (z.optional (z.array z.string) (prop "trust_chain" o)) λ chain.
              some (record { alg = alg; kid = kid; typ = typ; x5c = x5c; trust_chain = chain })

  parse_jwt_payload : Schema JwtPayload
  parse_jwt_payload v = Zod.◌>>=◌ (z.object v) λ o. Zod.◌>>=◌ (z.string (prop "iss" o)) λ iss.
      Zod.◌>>=◌ (parse_unix_time z (prop "iat" o)) λ iat.
        Zod.◌>>=◌ (parse_unix_time z (prop "exp" o)) λ exp.
          Zod.◌>>=◌ (z.object (prop "cnf" o)) λ cnf. Zod.◌>>=◌ (parse_jwk z (prop "jwk" cnf)) λ jwk.
            Zod.◌>>=◌ (z.object (prop "jwk" cnf)) λ with_kid.
              Zod.◌>>=◌ (z.string (prop "kid" with_kid)) λ kid.
                some (record { iss = iss; iat = iat; exp = exp; cnf_jwk = jwk; cnf_kid = kid })

  parse_alg_values : Schema (List String)
  parse_alg_values v = Zod.◌>>=◌ (z.object v) λ o. z.array z.string (prop "sd-jwt_alg_values" o)

  parse_vp_formats : Schema VpFormats
  parse_vp_formats v = Zod.◌>>=◌ (z.object v) λ o.
      Zod.◌>>=◌ (z.optional parse_alg_values (prop "vc+sd-jwt" o)) λ vc.
        Zod.◌>>=◌ (z.optional parse_alg_values (prop "vp+sd-jwt" o))
          λ vp. some (record { vc_sd_jwt = vc; vp_sd_jwt = vp })

  unfoldable pub parse_wallet_instance_attestation : Schema WalletInstanceAttestationJwt
  unfolding parse_jwt_header parse_jwt_payload parse_alg_values parse_vp_formats
  parse_wallet_instance_attestation v = Zod.◌>>=◌ (z.object v) λ o.
      Zod.◌>>=◌ (parse_jwt_header (prop "header" o)) λ header.
        Zod.◌>>=◌ (parse_jwt_payload (prop "payload" o)) λ payload.
          Zod.◌>>=◌ (z.object (prop "payload" o)) λ p. Zod.◌>>=◌ (z.string (prop "sub" p)) λ sub.
            Zod.◌>>=◌ (z.string (prop "aal" p)) λ aal.
              Zod.◌>>=◌ (z.string (prop "authorization_endpoint" p)) λ endpoint.
                Zod.◌>>=◌ (z.array z.string (prop "response_types_supported" p)) λ types.
                  Zod.◌>>=◌ (parse_vp_formats (prop "vp_formats_supported" p)) λ formats.
                    Zod.◌>>=◌
                      (z.array z.string (prop "request_object_signing_alg_values_supported" p))
                      λ algs.
                        Zod.◌>>=◌ (z.boolean (prop "presentation_definition_uri_supported" p))
                          λ by_uri. some (record {
                            header = header;
                            payload = payload;
                            sub = sub;
                            aal = aal;
                            authorization_endpoint = endpoint;
                            response_types_supported = types;
                            vp_formats_supported = formats;
                            request_object_signing_alg_values_supported = algs;
                            presentation_definition_uri_supported = by_uri;
                          })

pub record Trustmark : Type 0 where
  pub jwt : String
  pub expiration_time : Value

module _ (H : Host) where
  unfoldable pub decode : String → Result WalletInstanceAttestationJwt
  decode token = do
    decoded_jwt ← H.jwt_decode token
    parse H.zod "WalletInstanceAttestationJwt" (parse_wallet_instance_attestation H.zod)
        (token_value decoded_jwt)

  unfoldable pub verify : String → Result WalletInstanceAttestationJwt
  verify token = do
    decoded ← decode token
    _ ← H.jwt_verify token (one_key decoded.payload.cnf_jwk)
    ok decoded

  -- `decoded.payload.exp ?? 0`
  abbrev or_zero : Value → Value
  or_zero Value.undefined = Value.number 0
  or_zero Value.null = Value.number 0
  or_zero v = v

  -- `...(docNumber ? { sub: obfuscateString(docNumber) } : {})`
  abbrev pub subject_fields : (List ℕ → List ℕ) → Option String → Dict Value
  subject_fields order none = []
  subject_fields order (some doc_number) =
      if doc_number == ""
      then []
      else ("sub", Value.string (obfuscate_string order doc_number 60 "*")) ∷ []

  abbrev pub trustmark_to_sign :
      (List ℕ → List ℕ) → String → String → Option String → Value → JwtToSign
  trustmark_to_sign order attestation credential_type doc_number expiration_time = record {
    payload =
        ("iss", Value.string attestation)
        ∷ (subject_fields order doc_number ++ (("subtyp", Value.string credential_type) ∷ []));
    protected_header = ("alg", Value.string "ES256") ∷ [];
    audience = none;
    issuer = none;
    issued_at = true;
    expiration_time = some expiration_time;
  }

  abbrev pub thumbprint_message : String → String → String
  thumbprint_message ours theirs =
      "Failed to verify holder binding for status attestation, expected thumbprint: "
      <> (ours <> (", got: " <> theirs))

  -- `now` is `Date.now()`, and `order` is the order of `obfuscateString`.
  unfoldable pub get_credential_trustmark :
      (now : ℕ) (order : List ℕ → List ℕ) (attestation : String)
      → CryptoContext
      → (credential_type : String) (doc_number : Option String) (expiration_time : Value)
      → Result Trustmark
  get_credential_trustmark now order attestation ctx credential_type doc_number expiration_time = do
    holder_key ← ctx.get_public_key
    wia ← decode attestation
    _ ←
        guard (leb now (wia.payload.exp * 1000))
          (io_wallet_error "Wallet Instance Attestation expired")
    theirs ← H.thumbprint wia.payload.cnf_jwk
    ours ← H.thumbprint holder_key
    _ ← guard (theirs == ours) (io_wallet_error (thumbprint_message ours theirs))
    signed ←
        H.jwt_sign ctx
          (trustmark_to_sign order attestation credential_type doc_number expiration_time)
    decoded ← H.jwt_decode signed
    ok (record { jwt = signed; expiration_time = or_zero (prop "exp" decoded.payload) })
