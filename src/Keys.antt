-- ===== src/Keys.antt =====
-- Crypto contexts of device keys: src/utils/crypto.ts, and example/src/utils/crypto.ts.
pub mod Ephemeral
mod Tests
use io_react_native_wallet_i.Base.{String, Bool, true, false, some, List, ◌==◌, ◌<>◌, if◌then◌else◌}
use io_react_native_wallet_i.Jwk.{Jwk, fix_base64_encoding_on_key}
use io_react_native_wallet_i.Host.{Host, CryptoContext, KeyCall}
use io_react_native_wallet_i.Errors.{Error, foreign}
use io_react_native_wallet_i.Errors.Result
use io_react_native_wallet_i.Errors.Result.{Result, ok, err}
use io_react_native_wallet_i.Promise.{Async, ◌>>=◌, pure, draw_uuid, generate_key, delete_key}

-- A context asks the key store when it is used: it depends on the calls on the store until then.
abbrev pub LiveContext : Type 0
LiveContext = List KeyCall → CryptoContext

abbrev pub wia_keytag : String
wia_keytag = "WIA_KEYTAG"

abbrev pub dpop_keytag : String
dpop_keytag = "DPOP_KEYTAG"

-- `promise.finally(callback)`: what the callback throws hides what the promise came to.
abbrev pub finally : {A : Type 0} → Async A → Async (Unit {0}) → Async A
finally m cleanup w =
    let (r, w') = m w in
    let (c, w'') = cleanup w' in elim c [ ok u ↦ (r, w'') | err e ↦ (err e, w'') ]

-- `message === "PUBLIC_KEY_NOT_FOUND"`
abbrev pub is_key_not_found : Error → Bool
is_key_not_found (foreign message) = message == "PUBLIC_KEY_NOT_FOUND"
is_key_not_found _ = false

module _ (H : Host) where
  unfoldable pub create_crypto_context_for : String → LiveContext
  create_crypto_context_for keytag calls = record {
    get_public_key = Result.◌>>=◌ (H.public_key calls keytag) λ jwk.
        let fixed = fix_base64_encoding_on_key H.remove_padding jwk in
        Result.◌>>=◌ (H.thumbprint fixed) λ kid. ok (record fixed { kid = some kid });
    get_signature = λ value. H.sign_with_key calls value keytag;
  }

  -- `fn` is an async function.
  unfoldable pub with_ephemeral_key : {R : Type 0} → (LiveContext → Async R) → Async R
  with_ephemeral_key fn = do
    id ← draw_uuid H
    _ ← generate_key H ("ephemeral-" <> id)
    finally (fn (create_crypto_context_for ("ephemeral-" <> id)))
        (delete_key H ("ephemeral-" <> id))

  unfoldable pub delete_key_if_exists : String → Async (Unit {0})
  delete_key_if_exists keytag w =
      let (r, w') = delete_key H keytag w in
      elim r [
        | ok u ↦ (ok tt, w')
        | err e ↦ if is_key_not_found e then (ok tt, w') else (err e, w')
      ]

  unfoldable pub regenerate_crypto_key : String → Async (Unit {0})
  unfolding delete_key_if_exists
  regenerate_crypto_key keytag = delete_key_if_exists keytag >>= λ _. generate_key H keytag
