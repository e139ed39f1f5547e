-- ===== src/Wallet/Tests.antt =====
-- A wallet attestation and its trustmark, and an obfuscated number.
use io_react_native_wallet_i.Base.{ℕ, String, List, [], ◌∷◌}
use io_react_native_wallet_i.Value.{Value, obj}
use io_react_native_wallet_i.Host.{Host, CryptoContext, DecodedJwt}
use io_react_native_wallet_i.Errors.Result.{ok}
use io_react_native_wallet_i.Sample.{table_host, key_of, attestation}
use io_react_native_wallet_i.Wallet.{Trustmark}

abbrev text : String → Value
text s = Value.string s

abbrev mark : DecodedJwt
mark = record { protected_header = obj []; payload = obj (("exp", Value.number 5) ∷ []) }

abbrev host : Host
host = table_host (("wia", attestation) ∷ ("signed", mark) ∷ []) [] []

abbrev ctx : CryptoContext
ctx = record { get_public_key = ok (key_of "k"); get_signature = λ s. ok "signature" }

abbrev same_order : List ℕ → List ℕ
same_order ps = ps

abbrev trustmark : Trustmark
trustmark = record { jwt = "signed"; expiration_time = Value.number 5 }
