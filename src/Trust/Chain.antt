-- ===== src/Trust/Chain.antt =====
-- src/trust/chain.ts and the fetching functions of src/trust/index.ts.
pub mod Links
pub mod Renewal
use io_react_native_wallet_i.Base.{ℕ, zero, suc, ◌-◌, String, Bool, true, false, Option, none, some}
use io_react_native_wallet_i.Base.{List, [], ◌∷◌, ◌==◌, ◌<>◌, map, find?, get_elem?, length, show}
use io_react_native_wallet_i.Base.{if◌then◌else◌, same_number}
use io_react_native_wallet_i.Value.{Value}
use io_react_native_wallet_i.Zod.{Zod, Schema, parse}
use io_react_native_wallet_i.Jwk.{Jwk}
use io_react_native_wallet_i.Host.{Host, DecodedJwt, Request, Response, one_key}
use io_react_native_wallet_i.Errors.{Error, error, io_wallet_error}
use io_react_native_wallet_i.Errors.Result
use io_react_native_wallet_i.Errors.Result.{Result, ok, err, map_ok}
use io_react_native_wallet_i.Promise.{
  World, Async, Settled, rejected_at_once, later, promise_all, ◌>>=◌, lift, Completion, returned,
  try_return, await_all, send,
}
use io_react_native_wallet_i.Http.{has_status_or_throw, unexpected_status}
use io_react_native_wallet_i.SdJwt.Decode.{token_value}
use io_react_native_wallet_i.Trust.Types.{EntityStatement, parse_entity_statement}
use io_react_native_wallet_i.Trust.Entities.{
  BaseEntityConfiguration, TrustAnchorEntityConfiguration, EntityConfiguration, base_of, map_schema,
  parse_entity_configuration, parse_base_configuration,
}

-- What the chain's validation reads of an element: `header.kid` and `payload.jwks.keys`.
pub record Element : Type 0 where
  pub kid : String
  pub keys : List Jwk

abbrev pub configuration_element : BaseEntityConfiguration → Element
configuration_element c = record { kid = c.header.kid; keys = c.jwks }

abbrev pub statement_element : EntityStatement → Element
statement_element s = record { kid = s.header.kid; keys = s.jwks }

pub data Shape : Type 0 where
  first_element middle_element last_element : Shape

abbrev pub same_kid : String → Jwk → Bool
same_kid kid key = elim key.kid [ none ↦ false | some k ↦ k == kid ]

unfoldable pub select_token_shape : List String → ℕ → Shape
select_token_shape chain index =
    if same_number index 0
    then first_element
    else if same_number index (length chain - 1)
    then last_element
    else middle_element

-- `chain[i]`, where a missing or empty token throws.
token_at : String → List String → ℕ → Result String
token_at message chain index = elim (get_elem? chain index) [
  | none ↦ err (io_wallet_error message)
  | some token ↦ if token == "" then err (io_wallet_error message) else ok token
]

abbrev pub get_request : String → Request
get_request url = record { url = url; method = "GET"; headers = []; body = none }

abbrev pub well_known_url : String → String
well_known_url entity_base_url = entity_base_url <> "/.well-known/openid-federation"

module _ (H : Host) where
  shape_schema : Shape → Schema Element
  shape_schema first_element =
      map_schema (λ c. configuration_element (base_of c)) (parse_entity_configuration H.zod)
  shape_schema middle_element = map_schema statement_element (parse_entity_statement H.zod)
  shape_schema last_element =
      H.zod.union (map_schema statement_element (parse_entity_statement H.zod))
        (map_schema configuration_element (parse_base_configuration H.zod))

  shape_name : Shape → String
  shape_name first_element = "EntityConfiguration"
  shape_name middle_element = "EntityStatement"
  shape_name last_element = "LastElementShape"

  -- `shape.parse(decode(token))`
  unfoldable pub read_element : Shape → String → Result Element
  unfolding shape_schema shape_name
  read_element shape token =
      Result.◌>>=◌ (H.jwt_decode token)
        λ jwt. parse H.zod (shape_name shape) (shape_schema shape) (token_value jwt)

  unfoldable pub select_kid : List String → ℕ → Result String
  unfolding token_at
  select_kid chain index =
      Result.◌>>=◌ (token_at "Cannot select kid: empty token" chain index) λ token.
        Result.map_result (λ (e : Element). e.kid)
          (read_element (select_token_shape chain index) token)

  unfoldable pub select_keys : TrustAnchorEntityConfiguration → List String → ℕ → Result (List Jwk)
  unfolding token_at
  select_keys anchor chain index =
      if same_number index (length chain - 1)
      then ok anchor.jwks
      else (Result.◌>>=◌ (token_at "Cannot select keys: empty nextToken" chain (suc index)) λ token.
          Result.map_result (λ (e : Element). e.keys)
            (read_element (select_token_shape chain (suc index)) token))

  -- `verify`, as the callback of a map: an unknown kid is rejected before anything is awaited.
  unfoldable pub verify : String → String → List Jwk → Settled DecodedJwt
  verify token kid jwks = elim (find? (same_kid kid) jwks) [
    | none ↦ rejected_at_once (error ("Invalid kid: " <> (kid <> (", token: " <> token))))
    | some jwk ↦ later (H.jwt_verify token (one_key jwk))
  ]

  -- The first map of the iteration, from an index on; the second map applies `verify`.
  unfoldable pub verifications :
      TrustAnchorEntityConfiguration
      → List String
      → ℕ
      → List String
      → Result (List (Settled DecodedJwt))
  verifications anchor chain index [] = ok []
  verifications anchor chain index (token ∷ tokens) = Result.◌>>=◌ (select_kid chain index) λ kid.
      Result.◌>>=◌ (select_keys anchor chain index) λ keys.
        Result.◌>>=◌ (verifications anchor chain (suc index) tokens)
          λ more. ok (verify token kid keys ∷ more)

  unfoldable pub validate_trust_chain :
      TrustAnchorEntityConfiguration → List String → Result (List DecodedJwt)
  validate_trust_chain anchor [] = err (io_wallet_error "Cannot verify empty trust chain")
  validate_trust_chain anchor (token ∷ tokens) =
      Result.◌>>=◌ (verifications anchor (token ∷ tokens) 0 (token ∷ tokens)) promise_all

  abbrev pub get_text : String → Async String
  get_text url = do
    res ← send H (get_request url)
    checked ← lift (has_status_or_throw H 200 (unexpected_status H) res)
    lift (ok checked.text)

  abbrev pub fetch_url : String → String → String
  fetch_url accreditation_body subordinate =
      accreditation_body <> ("/fetch?" <> H.search_params (("sub", subordinate) ∷ []))

  unfoldable pub get_signed_entity_configuration : String → Async String
  get_signed_entity_configuration entity_base_url = get_text (well_known_url entity_base_url)

  unfoldable pub get_signed_entity_statement : String → String → Async String
  get_signed_entity_statement accreditation_body subordinate =
      get_text (fetch_url accreditation_body subordinate)

  -- `fetchAndParseEntityConfiguration`, with the schema of the wanted kind and its name.
  unfoldable pub fetch_and_parse_entity_configuration :
      {A : Type 0} → String → Schema A → String → Async A
  fetch_and_parse_entity_configuration name schema entity_base_url = do
    response_text ← get_signed_entity_configuration entity_base_url
    jwt ← lift (H.jwt_decode response_text)
    lift (parse H.zod name schema (token_value jwt))

  unfoldable pub get_entity_statement : String → String → Async EntityStatement
  get_entity_statement accreditation_body subordinate = do
    response_text ← get_signed_entity_statement accreditation_body subordinate
    jwt ← lift (H.jwt_decode response_text)
    lift (parse H.zod "EntityStatement" (parse_entity_statement H.zod) (token_value jwt))

  start : {A : Type 0} → Async A → World → Settled A × World
  start m w = let (r, w') = m w in (later r, w')

  -- One element of the chain to renew, from the two attempts to parse it.
  unfoldable pub renew_parsed :
      ℕ → Option EntityStatement → Option EntityConfiguration → World → Settled String × World
  unfolding start
  renew_parsed index es (some ec) w = start (get_signed_entity_configuration (base_of ec).iss) w
  renew_parsed index (some es) none w = start (get_signed_entity_statement es.iss es.sub) w
  renew_parsed index none none w = (
    rejected_at_once (
        io_wallet_error (
          "Cannot renew trust chain because the element #"
          <> (show index <> " failed to be parsed."))),
    w,
  )

  unfoldable pub renew_element : ℕ → DecodedJwt → World → Settled String × World
  renew_element index jwt =
      renew_parsed index (parse_entity_statement H.zod (token_value jwt))
        (parse_entity_configuration H.zod (token_value jwt))

  renewals : ℕ → List DecodedJwt → List (World → Settled String × World)
  renewals index [] = []
  renewals index (jwt ∷ jwts) = renew_element index jwt ∷ renewals (suc index) jwts

  unfoldable pub renew_trust_chain : List String → Async (List String)
  unfolding renewals
  renew_trust_chain chain = do jwts ← lift (map_ok H.jwt_decode chain); await_all (renewals 0 jwts)

  -- The call of the async function `validateTrustChain`: it returns a promise.
  abbrev pub call_validate :
      TrustAnchorEntityConfiguration → List String → Completion (Async (List DecodedJwt))
  call_validate anchor chain = returned (lift (validate_trust_chain anchor chain))

  unfoldable pub verify_trust_chain :
      TrustAnchorEntityConfiguration → List String → Bool → Async (List DecodedJwt)
  verify_trust_chain anchor chain renew_on_fail = try_return (call_validate anchor chain) λ e.
      if renew_on_fail
      then (do
        renewed_chain ← renew_trust_chain chain
        lift (validate_trust_chain anchor renewed_chain))
      else lift (err e)
