-- ===== src/Errors.antt =====
-- The error classes (src/utils/errors.ts, src/utils/error-codes.ts, src/sd-jwt/errors.ts and the
-- `errors.ts` of issuance and presentation), each with the fields that its constructor sets.
pub mod Builder
pub mod Handlers
pub mod Codes
pub mod Result
use io_react_native_wallet_i.Base.{ℕ, String, Bool, true, false, Option, none, some, List, [], ◌∷◌}
use io_react_native_wallet_i.Base.{◌==◌, ◌<>◌, ◌&&◌, if◌then◌else◌, join, map, or_else}
use io_react_native_wallet_i.Value.{Value}

pub data IssuerResponseErrorCode : Type 0 where
  issuer_generic_error : IssuerResponseErrorCode
  credential_issuing_not_synchronous : IssuerResponseErrorCode
  credential_request_failed : IssuerResponseErrorCode
  credential_invalid_status : IssuerResponseErrorCode
  status_attestation_request_failed : IssuerResponseErrorCode

pub data WalletProviderResponseErrorCode : Type 0 where
  wallet_provider_generic_error : WalletProviderResponseErrorCode
  wallet_instance_creation_failed : WalletProviderResponseErrorCode
  wallet_instance_attestation_issuing_failed : WalletProviderResponseErrorCode
  wallet_instance_integrity_failed : WalletProviderResponseErrorCode
  wallet_instance_revoked : WalletProviderResponseErrorCode
  wallet_instance_not_found : WalletProviderResponseErrorCode

pub issuer_code_discrete : Discrete IssuerResponseErrorCode
issuer_code_discrete = hlevel

pub wallet_provider_code_discrete : Discrete WalletProviderResponseErrorCode
wallet_provider_code_discrete = hlevel

-- A string or a JSON object.
pub data GenericErrorReason : Type 0 where
  text : String → GenericErrorReason
  json : Value → GenericErrorReason

-- The fields of an `UnexpectedStatusCodeError` besides its code.
pub record Failure : Type 0 where
  pub message : String
  pub reason : GenericErrorReason
  pub status_code : ℕ

-- What is thrown: a plain `Error`, an error of a library or of the platform, or an instance of one
-- of the program's classes.
pub data Error : Type 0 where
  error : String → Error
  foreign : String → Error
  io_wallet_error : String → Error
  validation_failed : (message claim reason : String) → Error
  unexpected_status_code_error : Failure → Error
  issuer_response_error : IssuerResponseErrorCode → Failure → Error
  wallet_provider_response_error : WalletProviderResponseErrorCode → Failure → Error
  authorization_error : String → Error
  authorization_idp_error : (message error : String) (error_description : Option String) → Error
  auth_request_decode_error : (message claim reason : String) → Error
  no_suitable_keys_found_in_entity_configuration : String → Error
  claims_not_found_between_disclosures : (message : String) (claims : List String) → Error
  claims_not_found_in_token : (message : String) (claims : List String) → Error

-- The values that `serializeAttrs` tells apart. `other` is what goes through `JSON.stringify`.
pub data Attr : Type 0 where
  missing : Attr
  plain : String → Attr
  many : List String → Attr
  other : Value → Attr

abbrev pub optional_attr : Option String → Attr
optional_attr none = missing
optional_attr (some s) = plain s

abbrev pub reason_attr : GenericErrorReason → Attr
reason_attr (text s) = plain s
reason_attr (json v) = other v

module _ (stringify : Value → String) where
  -- The filter on `undefined` and the two maps, entry by entry.
  serialize_entries : List (String × Attr) → List String
  serialize_entries [] = []
  serialize_entries ((k, missing) ∷ attrs) = serialize_entries attrs
  serialize_entries ((k, plain s) ∷ attrs) = (k <> ("=" <> s)) ∷ serialize_entries attrs
  serialize_entries ((k, many l) ∷ attrs) =
      (k <> ("=(" <> (join ", " l <> ")"))) ∷ serialize_entries attrs
  serialize_entries ((k, other v) ∷ attrs) = (k <> ("=" <> stringify v)) ∷ serialize_entries attrs

  unfoldable pub serialize_attrs : List (String × Attr) → String
  unfolding serialize_entries
  serialize_attrs attrs = join " " (serialize_entries attrs)

  -- `new ValidationFailed({ message, claim, reason })`, with the defaults filled in by the caller.
  pub new_validation_failed : (message claim reason : String) → Error
  new_validation_failed message claim reason =
      validation_failed
        (serialize_attrs
          (("message", plain message) ∷ ("claim", plain claim) ∷ ("reason", plain reason) ∷ []))
        claim reason

  unfoldable pub new_failure : String → GenericErrorReason → ℕ → Failure
  new_failure message reason status_code = record {
    message = serialize_attrs (
        ("message", plain message)
        ∷ ("reason", reason_attr reason)
        ∷ ("statusCode", other (Value.number status_code))
        ∷ []);
    reason = reason;
    status_code = status_code;
  }

  pub new_authorization_idp_error : String → Option String → Error
  new_authorization_idp_error idp_error error_description =
      authorization_idp_error
        (serialize_attrs
          (("error", plain idp_error) ∷ ("errorDescription", optional_attr error_description) ∷ []))
        idp_error error_description

  pub new_auth_request_decode_error : (message claim reason : String) → Error
  new_auth_request_decode_error message claim reason =
      auth_request_decode_error
        (serialize_attrs
          (("message", plain message) ∷ ("claim", plain claim) ∷ ("reason", plain reason) ∷ []))
        claim reason

pub new_no_suitable_keys : String → Error
new_no_suitable_keys scenario =
    no_suitable_keys_found_in_entity_configuration
      ("Entity configuration do not provide any suitable keys (" <> (scenario <> ")."))

pub new_claims_not_found_between_disclosures : List String → Error
new_claims_not_found_between_disclosures claims =
    claims_not_found_between_disclosures
      ("Some requested claims are not present in the disclosurable values, claims: "
        <> join ", " claims)
      claims

pub new_claims_not_found_in_token : List String → Error
new_claims_not_found_in_token claims =
    claims_not_found_in_token
      ("Some requested claims are not present in the disclosurable values: " <> join ", " claims)
      claims

-- `e instanceof UnexpectedStatusCodeError`, which its two subclasses are too.
unfoldable pub as_unexpected_status_code_error : Error → Option Failure
as_unexpected_status_code_error (unexpected_status_code_error f) = some f
as_unexpected_status_code_error (issuer_response_error _ f) = some f
as_unexpected_status_code_error (wallet_provider_response_error _ f) = some f
as_unexpected_status_code_error _ = none

-- `e instanceof WalletProviderResponseError`
unfoldable pub as_wallet_provider_response_error : Error → Option Failure
as_wallet_provider_response_error (wallet_provider_response_error _ f) = some f
as_wallet_provider_response_error _ = none

same_issuer_code : IssuerResponseErrorCode → IssuerResponseErrorCode → Bool
same_issuer_code a b = elim (issuer_code_discrete a b) [ yes _ ↦ true | no _ ↦ false ]

same_wallet_provider_code : WalletProviderResponseErrorCode → WalletProviderResponseErrorCode → Bool
same_wallet_provider_code a b = elim (wallet_provider_code_discrete a b) [
  | yes _ ↦ true
  | no _ ↦ false
]

abbrev code_or {ℓ} : {A : Type ℓ} → Option A → A → A
code_or none a = a
code_or (some b) a = b

-- `error.code === (code ?? error.code)` behind the class test.
unfoldable pub is_issuer_response_error : Error → Option IssuerResponseErrorCode → Bool
unfolding same_issuer_code
is_issuer_response_error (issuer_response_error c _) code = same_issuer_code c (code_or code c)
is_issuer_response_error _ code = false

unfoldable pub is_wallet_provider_response_error :
    Error → Option WalletProviderResponseErrorCode → Bool
unfolding same_wallet_provider_code
is_wallet_provider_response_error (wallet_provider_response_error c _) code =
    same_wallet_provider_code c (code_or code c)
is_wallet_provider_response_error _ code = false
