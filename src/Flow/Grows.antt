-- ===== src/Flow/Grows.antt =====
-- The parts of the flows only add to what was sent, drawn and asked of the key store.
use io_react_native_wallet_i.Base.{String, if◌then◌else◌, Bool-cases, inl, inr}
use io_react_native_wallet_i.Host.{Host}
use io_react_native_wallet_i.Errors.Result.{Result, ok, err}
use io_react_native_wallet_i.Promise.{World, delete_key}
use io_react_native_wallet_i.Promise.Grows.{
  Grows, IsGrown, growing, IsGrown-refl, IsGrown-trans, delete_key-Grows,
}
use io_react_native_wallet_i.Keys.{
  LiveContext, is_key_not_found, delete_key_if_exists, regenerate_crypto_key,
}
use io_react_native_wallet_i.Flow.{live}

pub live-Grows : (ctx : LiveContext) → Grows (live ctx)
unfolding Grows
live-Grows ctx w = IsGrown-refl w

same_world :
    (r : Result (Unit {0})) (v : World)
    → IsGrown v
        (elim r as (λ _. Result (Unit {0}) × World) [
          | ok u ↦ (ok tt, v)
          | err e ↦ if is_key_not_found e then (ok tt, v) else (err e, v)
        ]).1
same_world (ok u) v = IsGrown-refl v
same_world (err e) v = elim (Bool-cases (is_key_not_found e)) [
  | inl gone ↦ rw gone (IsGrown-refl v)
  | inr other ↦ rw other (IsGrown-refl v)
]

module _ (H : Host) where
  delete_key_if_exists-Grows : (tag : String) → Grows (delete_key_if_exists H tag)
  unfolding Grows delete_key_if_exists
  delete_key_if_exists-Grows tag w =
      IsGrown-trans (delete_key-Grows H tag w)
        (same_world (delete_key H tag w).0 (delete_key H tag w).1)

  pub regenerate_crypto_key-Grows : (tag : String) → Grows (regenerate_crypto_key H tag)
  unfolding regenerate_crypto_key
  regenerate_crypto_key-Grows tag = search (growing, delete_key_if_exists-Grows) depth 12
