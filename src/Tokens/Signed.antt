-- ===== src/Tokens/Signed.antt =====
-- The proof tokens of src/utils/dpop.ts and src/utils/pop.ts: what is signed, field by field.
use io_react_native_wallet_i.Base.{◌≡◌, String, true, Option, none, some, [], ◌∷◌}
use io_react_native_wallet_i.Value.{Value, maybe_string}
use io_react_native_wallet_i.Jwk.{Jwk, jwk_value}
use io_react_native_wallet_i.Host.{Host, CryptoContext}
use io_react_native_wallet_i.Errors.Result.{ok, >>=-eq-ok}
use io_react_native_wallet_i.Tokens.{create_dpop_token, create_pop_token}

-- A proof of the key of the context for a method and a url.
pub record IsDpop (H : Host) (ctx : CryptoContext) (jti htm htu : String) (ath : Option String)
    (token : String) : Type 0 where
  pub key : Jwk
  pub has_key : ctx.get_public_key ≡ ok key
  pub signed :
      H.jwt_sign ctx (record {
        payload =
            ("jti", Value.string jti)
            ∷ ("htm", Value.string htm)
            ∷ ("htu", Value.string htu)
            ∷ ("ath", maybe_string ath)
            ∷ [];
        protected_header = ("typ", Value.string "dpop+jwt") ∷ ("jwk", jwk_value key) ∷ [];
        audience = none;
        issuer = none;
        issued_at = true;
        expiration_time = some (Value.string "1h");
      })
      ≡ ok token

-- A proof of the key of the context for an audience.
pub record IsPop (H : Host) (ctx : CryptoContext) (jti aud iss : String) (token : String)
    : Type 0 where
  pub key : Jwk
  pub has_key : ctx.get_public_key ≡ ok key
  pub signed :
      H.jwt_sign ctx (record {
        payload =
            ("jti", Value.string jti) ∷ ("aud", Value.string aud) ∷ ("iss", Value.string iss) ∷ [];
        protected_header =
            ("typ", Value.string "jwt-client-attestation-pop") ∷ ("kid", maybe_string key.kid) ∷ [];
        audience = none;
        issuer = none;
        issued_at = true;
        expiration_time = some (Value.string "5min");
      })
      ≡ ok token

module _ (H : Host) where
  pub create_dpop_token-IsDpop :
      (ctx : CryptoContext) (jti htm htu : String) (ath : Option String) {token : String}
      → create_dpop_token H (record { jti = jti; htm = htm; htu = htu; ath = ath }) ctx ≡ ok token
      → IsDpop H ctx jti htm htu ath token
  unfolding create_dpop_token
  create_dpop_token-IsDpop ctx jti htm htu ath h =
      let (key, e, signed) = >>=-eq-ok ctx.get_public_key _ h in
      record { key = key; has_key = e; signed = signed }

  pub create_pop_token-IsPop :
      (ctx : CryptoContext) (jti aud iss : String) {token : String}
      → create_pop_token H jti aud iss ctx ≡ ok token
      → IsPop H ctx jti aud iss token
  unfolding create_pop_token
  create_pop_token-IsPop ctx jti aud iss h =
      let (key, e, signed) = >>=-eq-ok ctx.get_public_key _ h in
      record { key = key; has_key = e; signed = signed }
