-- ===== src/Keys/Tests.antt =====
-- An ephemeral key, and a regenerated one.
use io_react_native_wallet_i.Base.{refl, String, []}
use io_react_native_wallet_i.Host.{Host, generate, delete}
use io_react_native_wallet_i.Errors.{foreign}
use io_react_native_wallet_i.Errors.Result.{ok, err}
use io_react_native_wallet_i.Promise.{World, Async}
use io_react_native_wallet_i.Sample.{table_host}
use io_react_native_wallet_i.Keys.{LiveContext, with_ephemeral_key, dpop_keytag}
use io_react_native_wallet_i.Keys.Ephemeral.{
  IsEphemeral, with_ephemeral_key-IsEphemeral, regenerate_crypto_key_cases, Regenerated,
}

abbrev host : Host
host = table_host [] [] []

abbrev fresh : World
fresh = record { sent = []; drawn = 0; key_calls = [] }

abbrev fails : LiveContext → Async String
fails ctx w = (err (foreign "failed"), w)

with_ephemeral_key-IsEphemeral_example :
    IsEphemeral host fails "ephemeral-uuid" fresh
      (with_ephemeral_key host fails fresh).1
      (with_ephemeral_key host fails fresh).0
with_ephemeral_key-IsEphemeral_example = with_ephemeral_key-IsEphemeral host fails fresh refl

-- A key store without the key.
abbrev empty_store : Host
empty_store = record host {
  change_keys = λ calls call. elim call [
    | generate tag ↦ ok tt
    | delete tag ↦ err (foreign "PUBLIC_KEY_NOT_FOUND")
  ];
}

regenerate_crypto_key_cases_example :
    Regenerated empty_store dpop_keytag fresh (err (foreign "PUBLIC_KEY_NOT_FOUND"))
regenerate_crypto_key_cases_example = regenerate_crypto_key_cases empty_store dpop_keytag fresh
