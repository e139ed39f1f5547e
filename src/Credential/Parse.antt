-- ===== src/Credential/Parse.antt =====
-- src/credential/issuance/07-verify-and-parse-credential.ts. Times are in milliseconds.
pub mod Attributes
pub mod Binding
use io_react_native_wallet_i.Base.{ℕ, ◌*◌, String, Bool, true, false, not, Option, none, some}
use io_react_native_wallet_i.Base.{List, [], ◌∷◌, ◌==◌, ◌<>◌, ◌&&◌, ◌||◌, join, map, find?, filter}
use io_react_native_wallet_i.Base.{any, contains, if◌then◌else◌}
use io_react_native_wallet_i.Base.Dict.{Dict, lookup, spread, from_entries, keys}
use io_react_native_wallet_i.Value.{Value}
use io_react_native_wallet_i.Jwk.{Jwk}
use io_react_native_wallet_i.Host.{Host, CryptoContext, key_set}
use io_react_native_wallet_i.Errors.{io_wallet_error}
use io_react_native_wallet_i.Errors.Result.{Result, ok, err, guard, from_option, ◌>>=◌}
use io_react_native_wallet_i.SdJwt.Types.{Disclosure, SdJwt4Vc, parse_sd_jwt4_vc}
use io_react_native_wallet_i.SdJwt.Verify.{Verified, verify}
use io_react_native_wallet_i.SdJwt.Values.{get_value_from_disclosures}
use io_react_native_wallet_i.Trust.Types.{
  ClaimMetadata, DisplayMetadata, SupportedCredentialMetadata,
}
use io_react_native_wallet_i.Trust.Entities.{IssuerMetadata}

pub data AttributeName : Type 0 where
  localized : Dict String → AttributeName
  plain : String → AttributeName

-- An attribute of a `ParsedCredential`. `value_type` is what the spread definition keeps.
pub record Attribute : Type 0 where
  pub name : AttributeName
  pub value : Value
  pub value_type : Option String

abbrev pub is_named : String → Disclosure → Bool
is_named name d = d.name == name

-- `disclosures.find(_ => _[1] === key)?.[2]`
abbrev pub disclosed_value : String → List Disclosure → Value
disclosed_value key disclosures = elim (find? (is_named key) disclosures) [
  | none ↦ Value.undefined
  | some d ↦ d.value
]

abbrev pub names_of : List DisplayMetadata → Dict String
names_of display = from_entries (map (λ (d : DisplayMetadata). (d.locale, d.name)) display)

abbrev pub defined_attribute : List Disclosure → String → ClaimMetadata → Attribute
defined_attribute disclosures key definition = record {
  name = localized (names_of definition.display);
  value = disclosed_value key disclosures;
  value_type = some definition.value_type;
}

abbrev pub undefined_attribute : Disclosure → Attribute
undefined_attribute d = record { name = plain d.name; value = d.value; value_type = none }

abbrev pub defined_values : List (String × ClaimMetadata) → List Disclosure → Dict Attribute
defined_values definitions disclosures =
    from_entries (map (λ e. (e.0, defined_attribute disclosures e.0 e.1)) definitions)

abbrev pub undefined_values : Dict Attribute → List Disclosure → Dict Attribute
undefined_values defined disclosures = from_entries (
    map (λ (d : Disclosure). (d.name, undefined_attribute d))
      (filter (λ (d : Disclosure). not (contains (keys defined) d.name)) disclosures))

abbrev pub is_disclosed : List Disclosure → String → Bool
is_disclosed disclosures key = any (is_named key) disclosures

abbrev pub attrs_not_in_disclosures :
    List (String × ClaimMetadata) → List Disclosure → List (String × ClaimMetadata)
attrs_not_in_disclosures definitions disclosures =
    filter (λ e. not (is_disclosed disclosures e.0)) definitions

abbrev pub is_empty {ℓ} : {A : Type ℓ} → List A → Bool
is_empty [] = true
is_empty (x ∷ xs) = false

abbrev pub missing_message : List (String × ClaimMetadata) → List Disclosure → String
missing_message missing disclosures =
    "Some attributes are missing in the credential. Missing: ["
    <> (join ", " (map (λ e. e.0) missing)
        <> ("], received: [" <> (join ", " (map (λ (d : Disclosure). d.name) disclosures) <> "]")))

abbrev pub unknown_message : String → String → String
unknown_message format typ =
    "Received credential is of an unknwown type. Expected one of ["
    <> (format <> ("], received '" <> (typ <> "', ")))

-- The schema requires the claims of a supported credential, so their absence is no case here.
unfoldable pub parse_credential_sd_jwt :
    Dict SupportedCredentialMetadata
    → Verified
    → (ignore_missing_attributes include_undefined_attributes : Bool) → Result (Dict Attribute)
parse_credential_sd_jwt supported credential ignore_missing include_undefined = do
  subject ←
      from_option (lookup credential.sd_jwt.payload.vct supported)
        (io_wallet_error "Credential type not supported by the issuer")
  _ ←
      guard (subject.format == credential.sd_jwt.header.typ)
        (io_wallet_error (unknown_message subject.format credential.sd_jwt.header.typ))
  let missing = attrs_not_in_disclosures subject.claims credential.disclosures
  _ ←
      guard (is_empty missing || ignore_missing)
        (io_wallet_error (missing_message missing credential.disclosures))
  let defined = defined_values subject.claims credential.disclosures
  ok (
      if include_undefined
      then spread defined (undefined_values defined credential.disclosures)
      else defined)

-- `cnf.jwk.kid && cnf.jwk.kid === holderBindingKey.kid`
unfoldable pub is_bound_to : Jwk → Jwk → Bool
is_bound_to cnf holder = elim cnf.kid [
  | none ↦ false
  | some kid ↦ elim holder.kid [ none ↦ false | some k ↦ not (kid == "") && kid == k ]
]

-- `${kid}`
abbrev pub kid_text : Option String → String
kid_text none = "undefined"
kid_text (some kid) = kid

abbrev pub binding_message : Jwk → Jwk → String
binding_message cnf holder =
    "Failed to verify holder binding, expected kid: "
    <> (kid_text holder.kid <> (", got: " <> kid_text cnf.kid))

pub record VerifiedCredential : Type 0 where
  pub parsed_credential : Dict Attribute
  pub expiration : ℕ
  pub issued_at : Option ℕ

abbrev pub as_time : Value → Option ℕ
as_time (Value.number n) = some (n * 1000)
as_time _ = none

module _ (H : Host) where
  unfoldable pub verify_credential_sd_jwt : String → List Jwk → CryptoContext → Result Verified
  verify_credential_sd_jwt raw_credential issuer_keys holder_binding_context = do
    decoded ← verify H (parse_sd_jwt4_vc H.zod) raw_credential (key_set issuer_keys)
    holder_key ← holder_binding_context.get_public_key
    let cnf_jwk = decoded.sd_jwt.payload.cnf_jwk
    _ ←
        guard (is_bound_to cnf_jwk holder_key)
          (io_wallet_error (binding_message cnf_jwk holder_key))
    ok decoded

  unfoldable pub verify_and_parse_credential_sd_jwt :
      IssuerMetadata
      → String
      → CryptoContext
      → (ignore_missing_attributes include_undefined_attributes : Bool) → Result VerifiedCredential
  verify_and_parse_credential_sd_jwt issuer_conf credential ctx ignore_missing include_undefined =
      do
        let issuer = issuer_conf.openid_credential_issuer
        decoded ← verify_credential_sd_jwt credential issuer.jwks ctx
        parsed ←
            parse_credential_sd_jwt issuer.credential_configurations_supported decoded
              ignore_missing include_undefined
        ok (record {
          parsed_credential = parsed;
          expiration = decoded.sd_jwt.payload.exp * 1000;
          issued_at = as_time (get_value_from_disclosures H decoded.disclosures "iat");
        })

  unfoldable pub verify_and_parse_credential :
      IssuerMetadata
      → String
      → String
      → CryptoContext
      → (ignore_missing_attributes include_undefined_attributes : Bool) → Result VerifiedCredential
  verify_and_parse_credential issuer_conf credential format ctx ignore_missing include_undefined =
      if format == "vc+sd-jwt"
      then verify_and_parse_credential_sd_jwt issuer_conf credential ctx ignore_missing
          include_undefined
      else err (io_wallet_error ("Unsupported credential format: " <> format))
