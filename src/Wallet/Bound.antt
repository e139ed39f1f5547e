-- ===== src/Wallet/Bound.antt =====
-- When a trustmark is made.
use io_react_native_wallet_i.Base.{◌≡◌, ℕ, ◌*◌, ◌≤◌, String, Option, List}
use io_react_native_wallet_i.Value.{Value}
use io_react_native_wallet_i.Jwk.{Jwk}
use io_react_native_wallet_i.Host.{Host, CryptoContext}
use io_react_native_wallet_i.Errors.Result.{ok}
use io_react_native_wallet_i.Wallet.{
  WalletInstanceAttestationJwt, Trustmark, decode, trustmark_to_sign,
}

module _ (H : Host) where
  pub record IsMarked (now : ℕ) (order : List ℕ → List ℕ) (attestation : String)
      (ctx : CryptoContext) (credential_type : String) (doc_number : Option String)
      (expiration_time : Value) (t : Trustmark) : Type 0 where
    pub holder : Jwk
    pub wia : WalletInstanceAttestationJwt
    pub thumbprint : String
    pub has_key : ctx.get_public_key ≡ ok holder
    pub decodes : decode H attestation ≡ ok wia
    pub not_expired : now ≤ wia.payload.exp * 1000
    pub theirs : H.thumbprint wia.payload.cnf_jwk ≡ ok thumbprint
    pub ours : H.thumbprint holder ≡ ok thumbprint
    pub signed :
        H.jwt_sign ctx
          (trustmark_to_sign H order attestation credential_type doc_number expiration_time)
        ≡ ok t.jwt
