-- ===== src/SdJwt/Verify.antt =====
-- `verify` (src/sd-jwt/index.ts) and `verifyDisclosure` (src/sd-jwt/verifier.ts).
use io_react_native_wallet_i.Base.{String, List, [], ◌∷◌, split, head_or, map, contains}
use io_react_native_wallet_i.Value.{Value, arr}
use io_react_native_wallet_i.Zod.{Schema}
use io_react_native_wallet_i.Host.{Host, PublicKeys}
use io_react_native_wallet_i.Errors.{Error, new_validation_failed}
use io_react_native_wallet_i.Errors.Result.{Result, ok, guard, map_ok, ◌>>=◌}
use io_react_native_wallet_i.SdJwt.Types.{Disclosure, DisclosureWithEncoded, SdJwt4Vc}
use io_react_native_wallet_i.SdJwt.Decode.{tilde, decode}

pub record Verified : Type 0 where
  pub sd_jwt : SdJwt4Vc
  pub disclosures : List Disclosure

module _ (H : Host) where
  abbrev pub disclosure_error : DisclosureWithEncoded → Error
  disclosure_error d =
      let decoded =
        arr (Value.string d.decoded.salt ∷ Value.string d.decoded.name ∷ d.decoded.value ∷ []) in
      new_validation_failed H.json_stringify "Validation of disclosure failed" (H.to_text decoded)
        "Disclosure hash not found in claims"

  unfoldable pub verify_disclosure : List String → DisclosureWithEncoded → Result (Unit {0})
  verify_disclosure claims d =
      guard (contains claims (H.sha256_to_base64 d.encoded)) (disclosure_error d)

  unfoldable pub verify : Schema SdJwt4Vc → String → PublicKeys → Result Verified
  verify schema token public_key = do
    let raw_sd_jwt = head_or "" (split tilde token)
    decoded ← decode H schema token
    _ ← H.jwt_verify raw_sd_jwt public_key
    _ ← map_ok (verify_disclosure decoded.sd_jwt.payload.sd) decoded.disclosures
    ok (record { sd_jwt = decoded.sd_jwt; disclosures = map (λ d. d.decoded) decoded.disclosures })
