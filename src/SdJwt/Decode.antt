-- ===== src/SdJwt/Decode.antt =====
-- `decodeDisclosure` and `decode` of src/sd-jwt/index.ts.
use Prim.Native.Char.{Char}
use io_react_native_wallet_i.Base.{String, List, [], ◌∷◌, split, ends_with, drop_last}
use io_react_native_wallet_i.Base.{if◌then◌else◌, head_or, rest_of}
use io_react_native_wallet_i.Value.{Value, obj}
use io_react_native_wallet_i.Zod.{Schema, parse}
use io_react_native_wallet_i.Host.{Host, DecodedJwt}
use io_react_native_wallet_i.Errors.Result.{Result, ok, map_ok, ◌>>=◌}
use io_react_native_wallet_i.SdJwt.Types.{
  DisclosureWithEncoded, SdJwt4Vc, Decoded, parse_disclosure,
}

abbrev pub tilde : Char
tilde = "~"

-- `{ header: decoded.protectedHeader, payload: decoded.payload }`
abbrev pub token_value : DecodedJwt → Value
token_value t = obj (("header", t.protected_header) ∷ ("payload", t.payload) ∷ [])

module _ (H : Host) where
  unfoldable pub decode_disclosure : String → Result DisclosureWithEncoded
  decode_disclosure encoded = do
    utf8_string ← H.base64_decode encoded
    value ← H.json_parse utf8_string
    decoded ← parse H.zod "Disclosure" (parse_disclosure H.zod) value
    ok (record { decoded = decoded; encoded = encoded })

  -- One `~` at the end is dropped.
  abbrev pub without_tilde : String → String
  without_tilde token = if ends_with tilde token then drop_last token else token

  -- `schema` is the custom schema, or `parse_sd_jwt4_vc`.
  unfoldable pub decode_parts : Schema SdJwt4Vc → List String → Result Decoded
  decode_parts schema parts = do
    decoded_jwt ← H.jwt_decode (head_or "" parts)
    sd_jwt ← parse H.zod "SdJwt4VC" schema (token_value decoded_jwt)
    disclosures ← map_ok decode_disclosure (rest_of parts)
    ok (record { sd_jwt = sd_jwt; disclosures = disclosures })

  unfoldable pub decode : Schema SdJwt4Vc → String → Result Decoded
  decode schema token = decode_parts schema (split tilde (without_tilde token))
