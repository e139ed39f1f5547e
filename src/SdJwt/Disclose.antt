-- ===== src/SdJwt/Disclose.antt =====
-- `disclose` of src/sd-jwt/index.ts.
use io_react_native_wallet_i.Base.{ℕ, String, Option, none, some, List, [], ◌∷◌, split, join}
use io_react_native_wallet_i.Base.{◌==◌, ◌<>◌, if◌then◌else◌, find?, head_or, rest_of, map, show}
use io_react_native_wallet_i.Base.{index_of, contains}
use io_react_native_wallet_i.Host.{Host}
use io_react_native_wallet_i.Errors.{
  new_claims_not_found_between_disclosures, new_claims_not_found_in_token,
}
use io_react_native_wallet_i.Errors.Result.{Result, ok, err, ◌>>=◌}
use io_react_native_wallet_i.Promise.{Settled, rejected_at_once, later, promise_all}
use io_react_native_wallet_i.SdJwt.Types.{DisclosureWithEncoded, Decoded, parse_sd_jwt4_vc}
use io_react_native_wallet_i.SdJwt.Decode.{tilde, decode_disclosure, decode}

pub record ClaimPath : Type 0 where
  pub claim : String
  pub path : String

pub record Disclosed : Type 0 where
  pub token : String
  pub paths : List ClaimPath

module _ (H : Host) where
  abbrev pub named : String → List DisclosureWithEncoded → Option DisclosureWithEncoded
  named claim disclosures = find? (λ d. d.decoded.name == claim) disclosures

  abbrev pub hash_of : DisclosureWithEncoded → String
  hash_of d = H.sha256_to_base64 d.encoded

  abbrev pub path_text : ℕ → String
  path_text index = "verified_claims.claims._sd[" <> (show index <> "]")

  -- The callback of `claims.map`.
  unfoldable pub locate : Decoded → String → Settled ClaimPath
  locate decoded claim = elim (named claim decoded.disclosures) [
    | none ↦ rejected_at_once (new_claims_not_found_between_disclosures (claim ∷ []))
    | some d ↦ elim (index_of (hash_of d) decoded.sd_jwt.payload.sd) [
      | some index ↦ later (ok (record { claim = claim; path = path_text index }))
      | none ↦ later (err (new_claims_not_found_in_token (claim ∷ [])))
    ]
  ]

  -- The filter on the encoded disclosures, which decodes each once more.
  unfoldable pub keep : List String → List String → Result (List String)
  keep claims [] = ok []
  keep claims (encoded ∷ rest) = do
    d ← decode_disclosure H encoded
    kept ← keep claims rest
    ok (if contains claims d.decoded.name then encoded ∷ kept else kept)

  unfoldable pub disclose : String → List String → Result Disclosed
  disclose token claims = do
    let parts = split tilde token
    decoded ← decode H (parse_sd_jwt4_vc H.zod) token
    paths ← promise_all (map (locate decoded) claims)
    filtered ← keep claims (rest_of parts)
    ok (record { token = join "~" (head_or "" parts ∷ filtered); paths = paths })
