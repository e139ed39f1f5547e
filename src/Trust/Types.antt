-- ===== src/Trust/Types.antt =====
-- The metadata schemas of src/trust/types.ts, and the entity statement. What `passthrough` keeps
-- besides the named fields is left out.
use io_react_native_wallet_i.Base.{ℕ, String, Option, some, List}
use io_react_native_wallet_i.Base.Dict.{Dict}
use io_react_native_wallet_i.Value.{Value, prop}
use io_react_native_wallet_i.Zod.{Zod, Schema, ◌>>=◌}
use io_react_native_wallet_i.Jwk.{Jwk, parse_jwk}

pub record TrustMark : Type 0 where
  pub id : String
  pub trust_mark : String

pub record RelyingPartyMetadata : Type 0 where
  pub application_type : Option String
  pub client_id : Option String
  pub client_name : Option String
  pub jwks : List Jwk
  pub contacts : Option (List String)

-- `CredentialDisplayMetadata`, `CredentialIssuerDisplayMetadata` and the display of a claim.
pub record DisplayMetadata : Type 0 where
  pub name : String
  pub locale : String

pub record ClaimMetadata : Type 0 where
  pub value_type : String
  pub display : List DisplayMetadata

pub record IssuanceErrorDisplay : Type 0 where
  pub title : String
  pub description : String
  pub locale : String

pub record SupportedCredentialMetadata : Type 0 where
  pub format : String
  pub scope : String
  pub display : List DisplayMetadata
  pub claims : Dict ClaimMetadata
  pub cryptographic_binding_methods_supported : List String
  pub credential_signing_alg_values_supported : List String
  pub authentic_source : Option String
  pub issuance_errors_supported : Option (Dict (List IssuanceErrorDisplay))

pub record EntityHeader : Type 0 where
  pub typ : String
  pub alg : String
  pub kid : String

pub record EntityStatement : Type 0 where
  pub header : EntityHeader
  pub iss : String
  pub sub : String
  pub jwks : List Jwk
  pub trust_marks : List TrustMark
  pub iat : ℕ
  pub exp : ℕ

pub record FederationEntityMetadata : Type 0 where
  pub federation_fetch_endpoint : Option String
  pub federation_list_endpoint : Option String
  pub federation_resolve_endpoint : Option String
  pub federation_trust_mark_status_endpoint : Option String
  pub federation_trust_mark_list_endpoint : Option String
  pub organization_name : Option String
  pub homepage_uri : Option String
  pub policy_uri : Option String
  pub logo_uri : Option String
  pub contacts : Option (List String)

module _ (z : Zod) where
  abbrev pub text : String → Value → Option String
  text k o = z.string (prop k o)

  abbrev pub maybe_text : String → Value → Option (Option String)
  maybe_text k o = z.optional z.string (prop k o)

  abbrev pub texts : String → Value → Option (List String)
  texts k o = z.array z.string (prop k o)

  unfoldable pub parse_trust_mark : Schema TrustMark
  parse_trust_mark v = do
    o ← z.object v
    id ← text "id" o
    trust_mark ← text "trust_mark" o
    some (record { id = id; trust_mark = trust_mark })

  -- `z.object({ keys: z.array(JWK) })`
  unfoldable pub parse_jwks : Schema (List Jwk)
  parse_jwks v = do o ← z.object v; z.array (parse_jwk z) (prop "keys" o)

  unfoldable pub parse_relying_party_metadata : Schema RelyingPartyMetadata
  parse_relying_party_metadata v = do
    o ← z.object v
    application_type ← maybe_text "application_type" o
    client_id ← maybe_text "client_id" o
    client_name ← maybe_text "client_name" o
    jwks ← parse_jwks (prop "jwks" o)
    contacts ← z.optional (z.array z.string) (prop "contacts" o)
    some (record {
      application_type = application_type;
      client_id = client_id;
      client_name = client_name;
      jwks = jwks;
      contacts = contacts;
    })

  unfoldable pub parse_display_metadata : Schema DisplayMetadata
  parse_display_metadata v = do
    o ← z.object v
    name ← text "name" o
    locale ← text "locale" o
    some (record { name = name; locale = locale })

  parse_claim_metadata : Schema ClaimMetadata
  parse_claim_metadata v = do
    o ← z.object v
    value_type ← text "value_type" o
    display ← z.array parse_display_metadata (prop "display" o)
    some (record { value_type = value_type; display = display })

  parse_error_display : Schema IssuanceErrorDisplay
  parse_error_display v = do
    o ← z.object v
    title ← text "title" o
    description ← text "description" o
    locale ← text "locale" o
    some (record { title = title; description = description; locale = locale })

  parse_issuance_error : Schema (List IssuanceErrorDisplay)
  unfolding parse_error_display
  parse_issuance_error v = do o ← z.object v; z.array parse_error_display (prop "display" o)

  unfoldable pub parse_supported_credential : Schema SupportedCredentialMetadata
  unfolding parse_claim_metadata parse_issuance_error
  parse_supported_credential v = do
    o ← z.object v
    format ← z.union (z.literal "vc+sd-jwt") (z.literal "vc+mdoc-cbor") (prop "format" o)
    scope ← text "scope" o
    display ← z.array parse_display_metadata (prop "display" o)
    claims ← z.record_of parse_claim_metadata (prop "claims" o)
    binding_methods ← texts "cryptographic_binding_methods_supported" o
    signing_algs ← texts "credential_signing_alg_values_supported" o
    authentic_source ← maybe_text "authentic_source" o
    errors ← z.optional (z.record_of parse_issuance_error) (prop "issuance_errors_supported" o)
    some (record {
      format = format;
      scope = scope;
      display = display;
      claims = claims;
      cryptographic_binding_methods_supported = binding_methods;
      credential_signing_alg_values_supported = signing_algs;
      authentic_source = authentic_source;
      issuance_errors_supported = errors;
    })

  unfoldable pub parse_entity_header : Schema EntityHeader
  parse_entity_header v = do
    o ← z.object v
    typ ← z.literal "entity-statement+jwt" (prop "typ" o)
    alg ← text "alg" o
    kid ← text "kid" o
    some (record { typ = typ; alg = alg; kid = kid })

  unfoldable pub parse_entity_statement : Schema EntityStatement
  parse_entity_statement v = do
    o ← z.object v
    header ← parse_entity_header (prop "header" o)
    payload ← z.object (prop "payload" o)
    iss ← text "iss" payload
    sub ← text "sub" payload
    jwks ← parse_jwks (prop "jwks" payload)
    trust_marks ← z.array parse_trust_mark (prop "trust_marks" payload)
    iat ← z.number (prop "iat" payload)
    exp ← z.number (prop "exp" payload)
    some (record {
      header = header;
      iss = iss;
      sub = sub;
      jwks = jwks;
      trust_marks = trust_marks;
      iat = iat;
      exp = exp;
    })

  unfoldable pub parse_federation_entity : Schema FederationEntityMetadata
  parse_federation_entity v = do
    o ← z.object v
    fetch_endpoint ← maybe_text "federation_fetch_endpoint" o
    list_endpoint ← maybe_text "federation_list_endpoint" o
    resolve_endpoint ← maybe_text "federation_resolve_endpoint" o
    mark_status_endpoint ← maybe_text "federation_trust_mark_status_endpoint" o
    mark_list_endpoint ← maybe_text "federation_trust_mark_list_endpoint" o
    organization_name ← maybe_text "organization_name" o
    homepage_uri ← maybe_text "homepage_uri" o
    policy_uri ← maybe_text "policy_uri" o
    logo_uri ← maybe_text "logo_uri" o
    contacts ← z.optional (z.array z.string) (prop "contacts" o)
    some (record {
      federation_fetch_endpoint = fetch_endpoint;
      federation_list_endpoint = list_endpoint;
      federation_resolve_endpoint = resolve_endpoint;
      federation_trust_mark_status_endpoint = mark_status_endpoint;
      federation_trust_mark_list_endpoint = mark_list_endpoint;
      organization_name = organization_name;
      homepage_uri = homepage_uri;
      policy_uri = policy_uri;
      logo_uri = logo_uri;
      contacts = contacts;
    })
