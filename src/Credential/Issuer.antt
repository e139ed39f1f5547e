-- ===== src/Credential/Issuer.antt =====
-- `evaluateIssuerTrust` of src/credential/issuance/02-evaluate-issuer-trust.ts.
use io_react_native_wallet_i.Base.{String}
use io_react_native_wallet_i.Host.{Host}
use io_react_native_wallet_i.Promise.{Async, ◌>>=◌, pure}
use io_react_native_wallet_i.Trust.Chain.{fetch_and_parse_entity_configuration}
use io_react_native_wallet_i.Trust.Entities.{
  IssuerMetadata, CredentialIssuerEntityConfiguration, parse_credential_issuer_configuration,
}

module _ (H : Host) where
  abbrev pub get_credential_issuer_entity_configuration :
      String → Async CredentialIssuerEntityConfiguration
  get_credential_issuer_entity_configuration entity_base_url =
      fetch_and_parse_entity_configuration H "CredentialIssuerEntityConfiguration"
        (parse_credential_issuer_configuration H.zod) entity_base_url

  unfoldable pub evaluate_issuer_trust : String → Async IssuerMetadata
  evaluate_issuer_trust issuer_url =
      get_credential_issuer_entity_configuration issuer_url >>= λ issuer. pure issuer.metadata
