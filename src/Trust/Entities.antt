-- ===== src/Trust/Entities.antt =====
-- The entity configurations of src/trust/types.ts: the common part, the four kinds, their union.
use io_react_native_wallet_i.Base.{ℕ, String, Option, some, List}
use io_react_native_wallet_i.Base.Dict.{Dict}
use io_react_native_wallet_i.Value.{Value, prop}
use io_react_native_wallet_i.Zod.{Zod, Schema, ◌>>=◌}
use io_react_native_wallet_i.Jwk.{Jwk}
use io_react_native_wallet_i.SdJwt.Types.{parse_unix_time}
use io_react_native_wallet_i.Trust.Types.{
  EntityHeader, FederationEntityMetadata, DisplayMetadata, SupportedCredentialMetadata,
  RelyingPartyMetadata, text, texts, parse_jwks, parse_entity_header, parse_federation_entity,
  parse_display_metadata, parse_supported_credential, parse_relying_party_metadata,
}

pub record BaseEntityConfiguration : Type 0 where
  pub header : EntityHeader
  pub iss : String
  pub sub : String
  pub iat : ℕ
  pub exp : ℕ
  pub authority_hints : Option (List String)
  pub federation_entity : FederationEntityMetadata
  pub jwks : List Jwk

pub record OpenidCredentialIssuer : Type 0 where
  pub credential_issuer : String
  pub credential_endpoint : String
  pub revocation_endpoint : String
  pub status_attestation_endpoint : String
  pub display : List DisplayMetadata
  pub credential_configurations_supported : Dict SupportedCredentialMetadata
  pub jwks : List Jwk

pub record OauthAuthorizationServer : Type 0 where
  pub authorization_endpoint : String
  pub pushed_authorization_request_endpoint : String
  pub token_endpoint : String
  pub client_registration_types_supported : List String
  pub code_challenge_methods_supported : List String
  pub acr_values_supported : List String
  pub grant_types_supported : List String
  pub issuer : String
  pub jwks : List Jwk
  pub scopes_supported : List String
  pub response_modes_supported : List String
  pub token_endpoint_auth_methods_supported : List String
  pub token_endpoint_auth_signing_alg_values_supported : List String
  pub request_object_signing_alg_values_supported : List String

-- The metadata of a credential issuer, `issuerConf` in the issuance flow.
pub record IssuerMetadata : Type 0 where
  pub openid_credential_issuer : OpenidCredentialIssuer
  pub oauth_authorization_server : OauthAuthorizationServer
  pub wallet_relying_party : Option RelyingPartyMetadata

pub record WalletProviderMetadata : Type 0 where
  pub token_endpoint : String
  pub aal_values_supported : Option (List String)
  pub grant_types_supported : List String
  pub token_endpoint_auth_methods_supported : List String
  pub token_endpoint_auth_signing_alg_values_supported : List String
  pub jwks : List Jwk

pub record CredentialIssuerEntityConfiguration : Type 0 where
  pub base : BaseEntityConfiguration
  pub jwks : List Jwk
  pub metadata : IssuerMetadata

pub record RelyingPartyEntityConfiguration : Type 0 where
  pub base : BaseEntityConfiguration
  pub wallet_relying_party : RelyingPartyMetadata

pub record WalletProviderEntityConfiguration : Type 0 where
  pub base : BaseEntityConfiguration
  pub wallet_provider : WalletProviderMetadata

-- It has no metadata of its own.
abbrev pub TrustAnchorEntityConfiguration : Type 0
TrustAnchorEntityConfiguration = BaseEntityConfiguration

pub data EntityConfiguration : Type 0 where
  wallet_provider_configuration : WalletProviderEntityConfiguration → EntityConfiguration
  credential_issuer_configuration : CredentialIssuerEntityConfiguration → EntityConfiguration
  trust_anchor_configuration : TrustAnchorEntityConfiguration → EntityConfiguration
  relying_party_configuration : RelyingPartyEntityConfiguration → EntityConfiguration

abbrev pub base_of : EntityConfiguration → BaseEntityConfiguration
base_of (wallet_provider_configuration c) = c.base
base_of (credential_issuer_configuration c) = c.base
base_of (trust_anchor_configuration c) = c
base_of (relying_party_configuration c) = c.base

abbrev pub map_schema : {A B : Type 0} → (A → B) → Schema A → Schema B
map_schema f schema v = schema v >>= λ a. some (f a)

module _ (z : Zod) where
  unfoldable pub parse_base_configuration : Schema BaseEntityConfiguration
  parse_base_configuration v = do
    o ← z.object v
    header ← parse_entity_header z (prop "header" o)
    payload ← z.object (prop "payload" o)
    iss ← text z "iss" payload
    sub ← text z "sub" payload
    iat ← parse_unix_time z (prop "iat" payload)
    exp ← parse_unix_time z (prop "exp" payload)
    hints ← z.optional (z.array z.string) (prop "authority_hints" payload)
    metadata ← z.object (prop "metadata" payload)
    federation_entity ← parse_federation_entity z (prop "federation_entity" metadata)
    jwks ← parse_jwks z (prop "jwks" payload)
    some (record {
      header = header;
      iss = iss;
      sub = sub;
      iat = iat;
      exp = exp;
      authority_hints = hints;
      federation_entity = federation_entity;
      jwks = jwks;
    })

  -- `payload.metadata` of a token.
  metadata_of : Value → Option Value
  metadata_of v = do
    o ← z.object v
    payload ← z.object (prop "payload" o)
    z.object (prop "metadata" payload)

  parse_openid_credential_issuer : Schema OpenidCredentialIssuer
  parse_openid_credential_issuer v = do
    o ← z.object v
    credential_issuer ← text z "credential_issuer" o
    credential_endpoint ← text z "credential_endpoint" o
    revocation_endpoint ← text z "revocation_endpoint" o
    status_endpoint ← text z "status_attestation_endpoint" o
    display ← z.array (parse_display_metadata z) (prop "display" o)
    supported ←
        z.record_of (parse_supported_credential z) (prop "credential_configurations_supported" o)
    jwks ← parse_jwks z (prop "jwks" o)
    some (record {
      credential_issuer = credential_issuer;
      credential_endpoint = credential_endpoint;
      revocation_endpoint = revocation_endpoint;
      status_attestation_endpoint = status_endpoint;
      display = display;
      credential_configurations_supported = supported;
      jwks = jwks;
    })

  parse_oauth_server : Schema OauthAuthorizationServer
  parse_oauth_server v = do
    o ← z.object v
    authorization_endpoint ← text z "authorization_endpoint" o
    par_endpoint ← text z "pushed_authorization_request_endpoint" o
    token_endpoint ← text z "token_endpoint" o
    registration_types ← texts z "client_registration_types_supported" o
    challenge_methods ← texts z "code_challenge_methods_supported" o
    acr_values ← texts z "acr_values_supported" o
    grant_types ← texts z "grant_types_supported" o
    issuer ← text z "issuer" o
    jwks ← parse_jwks z (prop "jwks" o)
    scopes ← texts z "scopes_supported" o
    response_modes ← texts z "response_modes_supported" o
    auth_methods ← texts z "token_endpoint_auth_methods_supported" o
    auth_algs ← texts z "token_endpoint_auth_signing_alg_values_supported" o
    request_algs ← texts z "request_object_signing_alg_values_supported" o
    some (record {
      authorization_endpoint = authorization_endpoint;
      pushed_authorization_request_endpoint = par_endpoint;
      token_endpoint = token_endpoint;
      client_registration_types_supported = registration_types;
      code_challenge_methods_supported = challenge_methods;
      acr_values_supported = acr_values;
      grant_types_supported = grant_types;
      issuer = issuer;
      jwks = jwks;
      scopes_supported = scopes;
      response_modes_supported = response_modes;
      token_endpoint_auth_methods_supported = auth_methods;
      token_endpoint_auth_signing_alg_values_supported = auth_algs;
      request_object_signing_alg_values_supported = request_algs;
    })

  unfoldable pub parse_credential_issuer_configuration : Schema CredentialIssuerEntityConfiguration
  unfolding metadata_of parse_openid_credential_issuer parse_oauth_server
  parse_credential_issuer_configuration v = do
    base ← parse_base_configuration v
    o ← z.object v
    payload ← z.object (prop "payload" o)
    jwks ← parse_jwks z (prop "jwks" payload)
    metadata ← metadata_of v
    issuer ← parse_openid_credential_issuer (prop "openid_credential_issuer" metadata)
    server ← parse_oauth_server (prop "oauth_authorization_server" metadata)
    rp ← z.optional (parse_relying_party_metadata z) (prop "wallet_relying_party" metadata)
    some (record {
      base = base;
      jwks = jwks;
      metadata = record {
        openid_credential_issuer = issuer;
        oauth_authorization_server = server;
        wallet_relying_party = rp;
      };
    })

  unfoldable pub parse_relying_party_configuration : Schema RelyingPartyEntityConfiguration
  unfolding metadata_of
  parse_relying_party_configuration v = do
    base ← parse_base_configuration v
    metadata ← metadata_of v
    rp ← parse_relying_party_metadata z (prop "wallet_relying_party" metadata)
    some (record { base = base; wallet_relying_party = rp })

  parse_wallet_provider_metadata : Schema WalletProviderMetadata
  parse_wallet_provider_metadata v = do
    o ← z.object v
    token_endpoint ← text z "token_endpoint" o
    aal_values ← z.optional (z.array z.string) (prop "aal_values_supported" o)
    grant_types ← texts z "grant_types_supported" o
    auth_methods ← texts z "token_endpoint_auth_methods_supported" o
    auth_algs ← texts z "token_endpoint_auth_signing_alg_values_supported" o
    jwks ← parse_jwks z (prop "jwks" o)
    some (record {
      token_endpoint = token_endpoint;
      aal_values_supported = aal_values;
      grant_types_supported = grant_types;
      token_endpoint_auth_methods_supported = auth_methods;
      token_endpoint_auth_signing_alg_values_supported = auth_algs;
      jwks = jwks;
    })

  unfoldable pub parse_wallet_provider_configuration : Schema WalletProviderEntityConfiguration
  unfolding metadata_of parse_wallet_provider_metadata
  parse_wallet_provider_configuration v = do
    base ← parse_base_configuration v
    metadata ← metadata_of v
    provider ← parse_wallet_provider_metadata (prop "wallet_provider" metadata)
    some (record { base = base; wallet_provider = provider })

  -- The union tries the kinds in this order.
  unfoldable pub parse_entity_configuration : Schema EntityConfiguration
  parse_entity_configuration =
      z.union (map_schema wallet_provider_configuration parse_wallet_provider_configuration) (
        z.union (map_schema credential_issuer_configuration parse_credential_issuer_configuration) (
          z.union (map_schema trust_anchor_configuration parse_base_configuration)
            (map_schema relying_party_configuration parse_relying_party_configuration)))
