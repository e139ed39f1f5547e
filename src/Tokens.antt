-- ===== src/Tokens.antt =====
-- The signed proof tokens: src/utils/dpop.ts, src/utils/pop.ts and the nonce proof of
-- src/credential/issuance/06-obtain-credential.ts.
pub mod Signed
use io_react_native_wallet_i.Base.{String, true, Option, none, some, [], ◌∷◌}
use io_react_native_wallet_i.Base.Dict.{Dict}
use io_react_native_wallet_i.Value.{Value, maybe_string}
use io_react_native_wallet_i.Jwk.{jwk_value}
use io_react_native_wallet_i.Host.{Host, CryptoContext}
use io_react_native_wallet_i.Errors.Result.{Result, ◌>>=◌}

pub record DpopPayload : Type 0 where
  pub jti : String
  pub htm : String
  pub htu : String
  pub ath : Option String

-- An entry whose value is `undefined` is kept, as in the object literal.
abbrev dpop_fields : DpopPayload → Dict Value
dpop_fields p =
    ("jti", Value.string p.jti)
    ∷ ("htm", Value.string p.htm)
    ∷ ("htu", Value.string p.htu)
    ∷ ("ath", maybe_string p.ath)
    ∷ []

module _ (H : Host) where
  unfoldable pub create_dpop_token : DpopPayload → CryptoContext → Result String
  create_dpop_token payload crypto = do
    jwk ← crypto.get_public_key
    H.jwt_sign crypto (record {
      payload = dpop_fields payload;
      protected_header = ("typ", Value.string "dpop+jwt") ∷ ("jwk", jwk_value jwk) ∷ [];
      audience = none;
      issuer = none;
      issued_at = true;
      expiration_time = some (Value.string "1h");
    })

  unfoldable pub create_pop_token : (jti aud iss : String) → CryptoContext → Result String
  create_pop_token jti aud iss crypto = do
    jwk ← crypto.get_public_key
    H.jwt_sign crypto (record {
      payload =
          ("jti", Value.string jti) ∷ ("aud", Value.string aud) ∷ ("iss", Value.string iss) ∷ [];
      protected_header =
          ("typ", Value.string "jwt-client-attestation-pop") ∷ ("kid", maybe_string jwk.kid) ∷ [];
      audience = none;
      issuer = none;
      issued_at = true;
      expiration_time = some (Value.string "5min");
    })

  unfoldable pub create_nonce_proof :
      (nonce : String) (issuer : Option String) (audience : String) → CryptoContext → Result String
  create_nonce_proof nonce issuer audience ctx = do
    jwk ← ctx.get_public_key
    H.jwt_sign ctx (record {
      payload = ("nonce", Value.string nonce) ∷ [];
      protected_header = ("typ", Value.string "openid4vci-proof+jwt") ∷ ("jwk", jwk_value jwk) ∷ [];
      audience = some audience;
      issuer = issuer;
      issued_at = true;
      expiration_time = some (Value.string "5min");
    })
