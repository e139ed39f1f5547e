-- ===== src/Trust/Tests.antt =====
-- A chain of a leaf and the anchor's statement about it, and the theorems on it.
use io_react_native_wallet_i.Base.{◌≡◌, refl, ◌≢◌, ◌↔◌, String, true, none, List, [], ◌∷◌}
use io_react_native_wallet_i.Value.{Value, obj, arr, prop}
use io_react_native_wallet_i.Jwk.{parse_jwk}
use io_react_native_wallet_i.Host.{Host, DecodedJwt}
use io_react_native_wallet_i.Errors.Result.{ok}
use io_react_native_wallet_i.Promise.{World, promise_all}
use io_react_native_wallet_i.Sample.{table_host, key_of, keys_value}
use io_react_native_wallet_i.Trust.Types
use io_react_native_wallet_i.Trust.Entities
use io_react_native_wallet_i.Trust.Entities.{BaseEntityConfiguration}
use io_react_native_wallet_i.Trust.Chain.{
  validate_trust_chain, verify_trust_chain, renew_trust_chain, verifications,
}
use io_react_native_wallet_i.Trust.Chain
use io_react_native_wallet_i.Trust.Chain.Links.{Links, validate_trust_chain_iff}
use io_react_native_wallet_i.Trust.Chain.Renewal.{log, renewal_requests, renew_trust_chain-sent}
use io_react_native_wallet_i.SdJwt.Types.{parse_unix_time}

abbrev text : String → Value
text s = Value.string s

abbrev header_value : String → Value
header_value kid =
    obj (("typ", text "entity-statement+jwt") ∷ ("alg", text "ES256") ∷ ("kid", text kid) ∷ [])

abbrev leaf : DecodedJwt
leaf = record {
  protected_header = header_value "leaf";
  payload = obj (
      ("iss", text "https://leaf")
      ∷ ("sub", text "https://leaf")
      ∷ ("iat", Value.number 1)
      ∷ ("exp", Value.number 9)
      ∷ ("metadata", obj (("federation_entity", obj []) ∷ []))
      ∷ ("jwks", keys_value "leaf")
      ∷ []);
}

abbrev statement : DecodedJwt
statement = record {
  protected_header = header_value "anchor";
  payload = obj (
      ("iss", text "https://anchor")
      ∷ ("sub", text "https://leaf")
      ∷ ("iat", Value.number 1)
      ∷ ("exp", Value.number 9)
      ∷ ("trust_marks", arr [])
      ∷ ("jwks", keys_value "leaf")
      ∷ []);
}

abbrev host : Host
host = table_host (("leaf", leaf) ∷ ("statement", statement) ∷ []) [] []

abbrev anchor : BaseEntityConfiguration
anchor = record {
  header = record { typ = "entity-statement+jwt"; alg = "ES256"; kid = "anchor" };
  iss = "https://anchor";
  sub = "https://anchor";
  iat = 1;
  exp = 9;
  authority_hints = none;
  federation_entity = record {
    federation_fetch_endpoint = none;
    federation_list_endpoint = none;
    federation_resolve_endpoint = none;
    federation_trust_mark_status_endpoint = none;
    federation_trust_mark_list_endpoint = none;
    organization_name = none;
    homepage_uri = none;
    policy_uri = none;
    logo_uri = none;
    contacts = none;
  };
  jwks = key_of "anchor" ∷ [];
}

trust : Unit {0}
unfolding prop parse_jwk parse_unix_time Types.parse_jwks Types.parse_entity_header
    Types.parse_entity_statement Types.parse_trust_mark Types.parse_federation_entity
    Types.parse_relying_party_metadata Types.parse_display_metadata Types.parse_supported_credential
    Entities.parse_base_configuration Entities.parse_credential_issuer_configuration
    Entities.parse_relying_party_configuration Entities.parse_wallet_provider_configuration
    Entities.parse_entity_configuration Chain.read_element Chain.select_token_shape Chain.select_kid
    Chain.select_keys Chain.verify verifications validate_trust_chain promise_all
trust = tt

valid_chain :
    validate_trust_chain host anchor ("leaf" ∷ "statement" ∷ []) ≡ ok (leaf ∷ statement ∷ [])
unfolding trust
valid_chain = refl

abbrev chain : List String
chain = "leaf" ∷ "statement" ∷ []

validate_trust_chain_iff_example :
    (validate_trust_chain host anchor chain ≡ ok (leaf ∷ statement ∷ []))
    ↔ ((chain ≢ []) × Links host anchor true chain (leaf ∷ statement ∷ []))
validate_trust_chain_iff_example =
    validate_trust_chain_iff host anchor ("leaf" ∷ "statement" ∷ []) (leaf ∷ statement ∷ [])

abbrev idle : World
idle = record { sent = []; drawn = 0; key_calls = [] }

renew_trust_chain-sent_example :
    (renew_trust_chain host ("leaf" ∷ "statement" ∷ []) idle).1.sent
    ≡ log host (renewal_requests host (leaf ∷ statement ∷ [])) []
renew_trust_chain-sent_example =
    renew_trust_chain-sent host ("leaf" ∷ "statement" ∷ []) (leaf ∷ statement ∷ []) idle refl
