-- ===== src/SdJwt/Types.antt =====
-- The types and schemas of src/sd-jwt/types.ts. `sd` is `_sd`, and `credential_hash_alg` stands in
-- `status.status_attestation`.
use io_react_native_wallet_i.Base.{ℕ, String, Option, some, List}
use io_react_native_wallet_i.Value.{Value, prop}
use io_react_native_wallet_i.Zod.{Zod, Schema, ◌>>=◌}
use io_react_native_wallet_i.Jwk.{Jwk, parse_jwk}

-- { salt, claim name, claim value }
pub record Disclosure : Type 0 where
  pub salt : String
  pub name : String
  pub value : Value

pub record DisclosureWithEncoded : Type 0 where
  pub decoded : Disclosure
  pub encoded : String

pub record Header : Type 0 where
  pub typ : String
  pub alg : String
  pub kid : Option String

pub record Payload : Type 0 where
  pub iss : String
  pub sub : String
  pub iat : Option ℕ
  pub exp : ℕ
  pub sd_alg : String
  pub credential_hash_alg : String
  pub cnf_jwk : Jwk
  pub vct : String
  pub sd : List String

pub record SdJwt4Vc : Type 0 where
  pub header : Header
  pub payload : Payload

pub record Decoded : Type 0 where
  pub sd_jwt : SdJwt4Vc
  pub disclosures : List DisclosureWithEncoded

module _ (z : Zod) where
  unfoldable pub parse_unix_time : Schema ℕ
  parse_unix_time = z.max 2147483647000 (z.min 0 z.number)

  unfoldable pub parse_disclosure : Schema Disclosure
  parse_disclosure v = do
    (salt, name, value) ← z.tuple3 z.string z.string some v
    some (record { salt = salt; name = name; value = value })

  parse_header : Schema Header
  parse_header v = do
    o ← z.object v
    typ ← z.literal "vc+sd-jwt" (prop "typ" o)
    alg ← z.string (prop "alg" o)
    kid ← z.optional z.string (prop "kid" o)
    some (record { typ = typ; alg = alg; kid = kid })

  unfoldable pub parse_obfuscated_disclosures : Schema (List String)
  parse_obfuscated_disclosures v = do o ← z.object v; z.array z.string (prop "_sd" o)

  parse_hash_alg : Schema String
  parse_hash_alg v = do
    status ← z.object v
    attestation ← z.object (prop "status_attestation" status)
    z.literal "sha-256" (prop "credential_hash_alg" attestation)

  unfoldable pub parse_cnf : Schema Jwk
  parse_cnf v = do cnf ← z.object v; parse_jwk z (prop "jwk" cnf)

  -- The intersection of two schemas parses the value by both.
  parse_payload : Schema Payload
  unfolding parse_unix_time parse_hash_alg parse_cnf parse_obfuscated_disclosures
  parse_payload v = do
    o ← z.object v
    iss ← z.string (prop "iss" o)
    sub ← z.string (prop "sub" o)
    iat ← z.optional (parse_unix_time) (prop "iat" o)
    exp ← parse_unix_time (prop "exp" o)
    sd_alg ← z.literal "sha-256" (prop "_sd_alg" o)
    hash_alg ← parse_hash_alg (prop "status" o)
    cnf_jwk ← parse_cnf (prop "cnf" o)
    vct ← z.string (prop "vct" o)
    sd ← parse_obfuscated_disclosures v
    some (record {
      iss = iss;
      sub = sub;
      iat = iat;
      exp = exp;
      sd_alg = sd_alg;
      credential_hash_alg = hash_alg;
      cnf_jwk = cnf_jwk;
      vct = vct;
      sd = sd;
    })

  unfoldable pub parse_sd_jwt4_vc : Schema SdJwt4Vc
  unfolding parse_header parse_payload
  parse_sd_jwt4_vc v = do
    o ← z.object v
    header ← parse_header (prop "header" o)
    payload ← parse_payload (prop "payload" o)
    some (record { header = header; payload = payload })
