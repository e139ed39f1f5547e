-- ===== src/SdJwt/Tests.antt =====
-- A token with two disclosures, and the theorems on it.
use io_react_native_wallet_i.Base.{
  ◌≡◌, refl, ◌≢◌, ◌↔◌, String, true, none, List, [], ◌∷◌, contains, split, join, ends_with,
  drop_last, show, index_of,
}
use io_react_native_wallet_i.Value.{Value, obj, arr, prop}
use io_react_native_wallet_i.Jwk.{parse_jwk}
use io_react_native_wallet_i.Host.{Host, DecodedJwt, one_key}
use io_react_native_wallet_i.Errors.{new_claims_not_found_between_disclosures}
use io_react_native_wallet_i.Errors.Result.{ok, err}
use io_react_native_wallet_i.Promise.{promise_all}
use io_react_native_wallet_i.Sample.{table_host, key_of, key_value}
use io_react_native_wallet_i.SdJwt.Types.{
  Disclosure, DisclosureWithEncoded, SdJwt4Vc, Decoded, parse_sd_jwt4_vc, parse_disclosure,
}
use io_react_native_wallet_i.SdJwt.Decode.{decode, decode_parts, decode_disclosure, tilde}
use io_react_native_wallet_i.SdJwt.Disclose.{disclose, Disclosed, locate, keep}
use io_react_native_wallet_i.SdJwt.Verify.{verify, verify_disclosure, Verified}
use io_react_native_wallet_i.SdJwt.Laws.Keep.{EmptyIsRefused}
use io_react_native_wallet_i.SdJwt.Laws.Disclosed.{disclose-decode, disclose_ended}
use io_react_native_wallet_i.SdJwt.Laws.Verified.{verify_iff, IsVerified, disclose-verify}
use io_react_native_wallet_i.SdJwt.Laws.Paths.{disclose-ArePaths, ArePaths, disclose_missing}

abbrev text : String → Value
text s = Value.string s

abbrev token_of : DecodedJwt
token_of = record {
  protected_header = obj (("typ", text "vc+sd-jwt") ∷ ("alg", text "ES256") ∷ []);
  payload = obj (
      ("iss", text "issuer")
      ∷ ("sub", text "holder")
      ∷ ("exp", Value.number 9)
      ∷ ("_sd_alg", text "sha-256")
      ∷ (
        "status",
        obj (("status_attestation", obj (("credential_hash_alg", text "sha-256") ∷ [])) ∷ []),
      )
      ∷ ("cnf", obj (("jwk", key_value "k") ∷ []))
      ∷ ("vct", text "MDL")
      ∷ ("_sd", arr (text "#d1" ∷ text "#d2" ∷ []))
      ∷ []);
}

abbrev triple : String → String → Value
triple name value = arr (text "salt" ∷ text name ∷ text value ∷ [])

abbrev pub host : Host
host =
    table_host (("jwt", token_of) ∷ [])
      (("d1", triple "given_name" "Ada") ∷ ("d2", triple "family_name" "Rossi") ∷ []) []

sd_jwt : Unit {0}
unfolding split join ends_with drop_last show index_of contains decode decode_parts
    decode_disclosure disclose locate keep promise_all verify verify_disclosure parse_sd_jwt4_vc
    parse_disclosure parse_jwk prop
sd_jwt = tt

abbrev pub disclosure : String → String → String → DisclosureWithEncoded
disclosure encoded name value = record {
  encoded = encoded;
  decoded = record { salt = "salt"; name = name; value = text value };
}

abbrev pub parsed : SdJwt4Vc
parsed = record {
  header = record { typ = "vc+sd-jwt"; alg = "ES256"; kid = none };
  payload = record {
    iss = "issuer";
    sub = "holder";
    iat = none;
    exp = 9;
    sd_alg = "sha-256";
    credential_hash_alg = "sha-256";
    cnf_jwk = key_of "k";
    vct = "MDL";
    sd = "#d1" ∷ "#d2" ∷ [];
  };
}

abbrev whole : Decoded
whole = record {
  sd_jwt = parsed;
  disclosures = disclosure "d1" "given_name" "Ada" ∷ disclosure "d2" "family_name" "Rossi" ∷ [];
}

abbrev out : Disclosed
out = record {
  token = "jwt~d2";
  paths = record { claim = "family_name"; path = "verified_claims.claims._sd[1]" } ∷ [];
}

decode-whole : decode host (parse_sd_jwt4_vc host.zod) "jwt~d1~d2" ≡ ok whole
unfolding sd_jwt
decode-whole = refl

disclose_one : disclose host "jwt~d1~d2" ("family_name" ∷ []) ≡ ok out
unfolding sd_jwt
disclose_one = refl

verify_whole :
    verify host (parse_sd_jwt4_vc host.zod) "jwt~d1~d2" (one_key (key_of "k"))
    ≡ ok (record {
      sd_jwt = parsed;
      disclosures =
          (disclosure "d1" "given_name" "Ada").decoded
          ∷ (disclosure "d2" "family_name" "Rossi").decoded
          ∷ [];
    })
unfolding sd_jwt
verify_whole = refl

empty_is_refused : EmptyIsRefused host
unfolding decode_disclosure
empty_is_refused d h = cc h

disclose-decode_example :
    decode host (parse_sd_jwt4_vc host.zod) "jwt~d2"
    ≡ ok (record { sd_jwt = parsed; disclosures = disclosure "d2" "family_name" "Rossi" ∷ [] })
unfolding sd_jwt
disclose-decode_example =
    disclose-decode host empty_is_refused (parse_sd_jwt4_vc host.zod) "jwt~d1~d2"
      ("family_name" ∷ []) out whole disclose_one decode-whole

ends_in_tilde : ends_with tilde "jwt~d1~" ≡ true
unfolding ends_with
ends_in_tilde = refl

disclose_ended_example : disclose host "jwt~d1~" ("given_name" ∷ []) ≢ ok out
disclose_ended_example =
    disclose_ended host empty_is_refused "jwt~d1~" ("given_name" ∷ []) ends_in_tilde out

abbrev pub verified : List Disclosure → Verified
verified ds = record { sd_jwt = parsed; disclosures = ds }

abbrev pub both : List Disclosure
both =
    (disclosure "d1" "given_name" "Ada").decoded
    ∷ (disclosure "d2" "family_name" "Rossi").decoded
    ∷ []

verify_iff_example :
    (verify host (parse_sd_jwt4_vc host.zod) "jwt~d1~d2" (one_key (key_of "k"))
      ≡ ok (verified both))
    ↔ IsVerified host (parse_sd_jwt4_vc host.zod) "jwt~d1~d2" (one_key (key_of "k")) (verified both)
verify_iff_example =
    verify_iff host (parse_sd_jwt4_vc host.zod) "jwt~d1~d2" (one_key (key_of "k")) (verified both)

disclose-verify_example :
    verify host (parse_sd_jwt4_vc host.zod) "jwt~d2" (one_key (key_of "k"))
    ≡ ok (verified ((disclosure "d2" "family_name" "Rossi").decoded ∷ []))
unfolding sd_jwt
disclose-verify_example =
    disclose-verify host empty_is_refused (parse_sd_jwt4_vc host.zod) "jwt~d1~d2"
      (one_key (key_of "k")) ("family_name" ∷ []) (verified both) out verify_whole disclose_one

disclose-ArePaths_example : ArePaths host whole ("family_name" ∷ []) out.paths
disclose-ArePaths_example =
    disclose-ArePaths host "jwt~d1~d2" ("family_name" ∷ []) out whole disclose_one decode-whole

disclose_missing_example :
    disclose host "jwt~d1~d2" ("given_name" ∷ "age" ∷ [])
    ≡ err (new_claims_not_found_between_disclosures ("age" ∷ []))
disclose_missing_example =
    disclose_missing host "jwt~d1~d2" ("given_name" ∷ "age" ∷ []) whole "age" decode-whole refl
