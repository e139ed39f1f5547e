-- ===== src/Credential/Tests.antt =====
-- An issuer of one type of credential, and the theorems on it.
use io_react_native_wallet_i.Base.{
  includes, ◌≡◌, refl, ℕ, String, true, false, none, some, List, [], ◌∷◌, split, join, ends_with,
  drop_last, contains, ◌⊎◌, ◌↔◌, All,
}
use io_react_native_wallet_i.Base.Dict.{Dict, lookup, insert, spread, keys}
use io_react_native_wallet_i.Value.{Value, prop, truthy}
use io_react_native_wallet_i.Jwk.{parse_jwk}
use io_react_native_wallet_i.Host.{Host, CryptoContext, Response}
use io_react_native_wallet_i.Errors.{Error, Failure, text, io_wallet_error}
use io_react_native_wallet_i.Errors.Builder.{}
use io_react_native_wallet_i.Errors.Result.{ok, err}
use io_react_native_wallet_i.Promise.{World}
use io_react_native_wallet_i.Tokens.{create_nonce_proof}
use io_react_native_wallet_i.Sample.{table_host, key_of}
use io_react_native_wallet_i.SdJwt.Types.{parse_sd_jwt4_vc, parse_disclosure}
use io_react_native_wallet_i.SdJwt.Decode.{decode, decode_parts, decode_disclosure}
use io_react_native_wallet_i.SdJwt.Verify.{verify, verify_disclosure}
use io_react_native_wallet_i.SdJwt.Values.{get_value_from_disclosures}
use io_react_native_wallet_i.SdJwt.Tests.{host, verified, both}
use io_react_native_wallet_i.Trust.Types.{ClaimMetadata, SupportedCredentialMetadata}
use io_react_native_wallet_i.Trust.Entities.{IssuerMetadata}
use io_react_native_wallet_i.Credential.Parse.{
  Attribute, localized, plain, parse_credential_sd_jwt, VerifiedCredential,
  verify_and_parse_credential, verify_and_parse_credential_sd_jwt, verify_credential_sd_jwt,
  is_bound_to,
}
use io_react_native_wallet_i.Credential.Parse.Attributes.{IsParsed, parse_credential-IsParsed}
use io_react_native_wallet_i.Credential.Parse.Binding.{IsBound, verify_and_parse-IsBound}
use io_react_native_wallet_i.Credential.Obtain.{
  AuthorizationDetail, TokenResponse, obtain_credential, missing_definition,
}
use io_react_native_wallet_i.Credential.Obtain.Statuses.{obtain_credential_uncovered_iff}
use io_react_native_wallet_i.Credential.Status.{
  ParsedStatusAttestation, verify_status, verify_and_parse_status_attestation,
}
use io_react_native_wallet_i.Credential.Select.{select_credential_definition}
use io_react_native_wallet_i.Credential.Select.Choices.{
  IsSelected, select_credential_definition-IsSelected,
}
use io_react_native_wallet_i.Credential.Status.Bound.{IsStatus, verify_and_parse_status_cases}

abbrev claim : String → String → String × ClaimMetadata
claim key name =
    (key, record { value_type = "string"; display = record { name = name; locale = "it" } ∷ [] })

abbrev type_of : List (String × ClaimMetadata) → SupportedCredentialMetadata
type_of claims = record {
  format = "vc+sd-jwt";
  scope = "MDL";
  display = [];
  claims = claims;
  cryptographic_binding_methods_supported = [];
  credential_signing_alg_values_supported = [];
  authentic_source = none;
  issuance_errors_supported = none;
}

abbrev supported : List (String × ClaimMetadata) → Dict SupportedCredentialMetadata
supported claims = ("MDL", type_of claims) ∷ []

abbrev given : List (String × ClaimMetadata)
given = claim "given_name" "Nome" ∷ []

abbrev attributes : Dict Attribute
attributes =
    (
      "given_name",
      record {
        name = localized (("it", "Nome") ∷ []);
        value = Value.string "Ada";
        value_type = some "string";
      },
    )
    ∷ (
      "family_name",
      record { name = plain "family_name"; value = Value.string "Rossi"; value_type = none },
    )
    ∷ []

parse_both : parse_credential_sd_jwt (supported given) (verified both) false true ≡ ok attributes
unfolding parse_credential_sd_jwt lookup insert spread keys contains
parse_both = refl

parse_credential-IsParsed_example : IsParsed (supported given) (verified both) false true attributes
parse_credential-IsParsed_example =
    parse_credential-IsParsed (supported given) (verified both) false true attributes parse_both

abbrev unheard : List (String × ClaimMetadata)
unheard = claim "age" "Età" ∷ []

abbrev pub conf : IssuerMetadata
conf = record {
  openid_credential_issuer = record {
    credential_issuer = "issuer";
    credential_endpoint = "credential";
    revocation_endpoint = "revoke";
    status_attestation_endpoint = "status";
    display = [];
    credential_configurations_supported = supported given;
    jwks = key_of "issuer" ∷ [];
  };
  oauth_authorization_server = record {
    authorization_endpoint = "authorize";
    pushed_authorization_request_endpoint = "par";
    token_endpoint = "token";
    client_registration_types_supported = [];
    code_challenge_methods_supported = [];
    acr_values_supported = [];
    grant_types_supported = [];
    issuer = "issuer";
    jwks = [];
    scopes_supported = [];
    response_modes_supported = "query" ∷ [];
    token_endpoint_auth_methods_supported = [];
    token_endpoint_auth_signing_alg_values_supported = [];
    request_object_signing_alg_values_supported = [];
  };
  wallet_relying_party = none;
}

abbrev pub ctx : CryptoContext
ctx = record { get_public_key = ok (key_of "k"); get_signature = λ s. ok "signature" }

abbrev accepted : VerifiedCredential
accepted = record { parsed_credential = attributes; expiration = 9000; issued_at = none }

verify_and_parse_both :
    verify_and_parse_credential host conf "jwt~d1~d2" "vc+sd-jwt" ctx false true ≡ ok accepted
unfolding verify_and_parse_credential verify_and_parse_credential_sd_jwt verify_credential_sd_jwt
    is_bound_to verify decode decode_parts decode_disclosure verify_disclosure parse_sd_jwt4_vc
    parse_disclosure parse_jwk prop split join ends_with drop_last contains parse_credential_sd_jwt
    lookup insert spread keys get_value_from_disclosures truthy
verify_and_parse_both = refl

verify_and_parse-IsBound_example : IsBound host conf "jwt~d1~d2" ctx false true accepted
verify_and_parse-IsBound_example =
    verify_and_parse-IsBound host conf "jwt~d1~d2" "vc+sd-jwt" ctx false true accepted
      verify_and_parse_both

abbrev detail : AuthorizationDetail
detail = record {
  credential_configuration_id = "MDL";
  format = "vc+sd-jwt";
  type = "openid_credential";
}

abbrev access : TokenResponse
access = record {
  access_token = "access";
  authorization_details = detail ∷ [];
  c_nonce = "nonce";
  c_nonce_expires_in = 5;
  expires_in = 5;
  token_type = "DPoP";
}

abbrev forbidden : Response
forbidden = record { status = 403; url = "credential"; content_type = none; text = "no" }

abbrev web : Host
web = table_host [] [] (("credential", forbidden) ∷ [])

abbrev start : World
start = record { sent = []; drawn = 0; key_calls = [] }

obtain_credential_uncovered_iff_example :
    (obtain_credential web conf access
        (some "client")
        (record detail { format = "vc+mdoc-cbor" })
        ctx
        ctx
        start
      ≡ (err (missing_definition web), start))
    ↔ All (λ d. ¬ (d ≡ record detail { format = "vc+mdoc-cbor" })) access.authorization_details
unfolding create_nonce_proof
obtain_credential_uncovered_iff_example =
    obtain_credential_uncovered_iff web conf access (some "client")
      (record detail { format = "vc+mdoc-cbor" }) ctx ctx start "signed" refl

verify_and_parse_status_cases_example :
    ((r : ParsedStatusAttestation) × (verify_and_parse_status_attestation host
          (λ e. "{}")
          conf
          "other"
          ctx
        ≡ ok r)
      × IsStatus host conf "other" ctx r)
    ⊎ ((e : Error) × (verify_status host conf "other" ctx ≡ err e)
        × (verify_and_parse_status_attestation host (λ e. "{}") conf "other" ctx
            ≡ err (io_wallet_error "Failed to verify status attestation: {}")))
verify_and_parse_status_cases_example =
    verify_and_parse_status_cases host (λ e. "{}") conf "other" ctx

abbrev failure : ℕ → Failure
failure n = record { message = "failed"; reason = text "no"; status_code = n }

select_own_type : select_credential_definition conf "MDL" ≡ ok detail
unfolding select_credential_definition includes keys lookup
select_own_type = refl

select_credential_definition-IsSelected_example : IsSelected conf "MDL" detail
select_credential_definition-IsSelected_example =
    select_credential_definition-IsSelected conf "MDL" detail select_own_type
