-- ===== src/Flow/Tests.antt =====
-- Runs of the two issuance flows against an issuer with tables of answers.
use io_react_native_wallet_i.Base.{
  ◌≡◌, refl, ℕ, String, Option, none, true, false, [], ◌∷◌, includes, contains, split, join,
  ends_with, drop_last,
}
use io_react_native_wallet_i.Base.Dict.{Dict, lookup, insert, spread, keys}
use io_react_native_wallet_i.Value.{Value, prop, obj, arr, truthy}
use io_react_native_wallet_i.Jwk.{parse_jwk, fix_base64_encoding_on_key}
use io_react_native_wallet_i.Host.{Host, DecodedJwt, Response}
use io_react_native_wallet_i.Errors.Result.{ok}
use io_react_native_wallet_i.Promise.{
  World, Async, pure, send, draw_uuid, draw_below, generate_key, delete_key,
}
use io_react_native_wallet_i.Promise.Sequence.{◌>>=◌}
use io_react_native_wallet_i.Http.{has_status_or_throw, member}
use io_react_native_wallet_i.Tokens.{create_dpop_token, create_pop_token, create_nonce_proof}
use io_react_native_wallet_i.Sample.{table_host, attestation, key_value, keys_value}
use io_react_native_wallet_i.SdJwt.Types.{parse_unix_time, parse_sd_jwt4_vc, parse_disclosure}
use io_react_native_wallet_i.SdJwt.Decode.{decode, decode_parts, decode_disclosure}
use io_react_native_wallet_i.SdJwt.Verify.{verify, verify_disclosure}
use io_react_native_wallet_i.SdJwt.Values.{get_value_from_disclosures}
use io_react_native_wallet_i.Trust.Types.{
  parse_jwks, parse_display_metadata, parse_supported_credential, parse_entity_header,
  parse_federation_entity,
}
use io_react_native_wallet_i.Trust.Entities.{
  parse_base_configuration, parse_credential_issuer_configuration,
}
use io_react_native_wallet_i.Trust.Chain.{
  get_signed_entity_configuration, fetch_and_parse_entity_configuration,
}
use io_react_native_wallet_i.Wallet.{parse_wallet_instance_attestation}
use io_react_native_wallet_i.Wallet
use io_react_native_wallet_i.Random.{char_at, generate_random_alpha_numeric_string}
use io_react_native_wallet_i.Par.{make_par_request}
use io_react_native_wallet_i.Keys.{
  LiveContext, create_crypto_context_for, regenerate_crypto_key, wia_keytag,
}
use io_react_native_wallet_i.FormPost.{
  form_post_match, match_here, match_name, match_value, after_literal, greedy, up_to_quote,
  without_spaces, get_jwt_from_form_post,
}
use io_react_native_wallet_i.FormPost.Page.{page_of}
use io_react_native_wallet_i.Presentation.{parse_request_object}
use io_react_native_wallet_i.Credential.Issuer.{evaluate_issuer_trust}
use io_react_native_wallet_i.Credential.Select.{
  parse_authorization_response, parse_authorization_result, select_credential_definition,
  select_response_mode,
}
use io_react_native_wallet_i.Credential.Authorize.{
  start_user_authorization, parse_response_uri, build_authorization_url,
  complete_user_authorization_with_query_mode, get_requested_credential_to_be_presented,
  complete_user_authorization_with_form_post_jwt_mode,
}
use io_react_native_wallet_i.Credential.Access.{authorize_access, parse_token_response}
use io_react_native_wallet_i.Credential.Obtain.{
  obtain_credential, parse_credential_response, parse_authorization_detail,
}
use io_react_native_wallet_i.Credential.Parse.{
  Attribute, localized, verify_and_parse_credential, verify_and_parse_credential_sd_jwt,
  verify_credential_sd_jwt, is_bound_to, parse_credential_sd_jwt,
}
use io_react_native_wallet_i.Store.{PidResult, CredentialResult, mdl}
use io_react_native_wallet_i.Flow.{
  FlowInput, new_credential_key, obtain_and_parse, authorize_pid, get_pid_cie_id,
  authorize_credential, get_credential,
}
use io_react_native_wallet_i.Promise.Grows.{pure-Grows}
use io_react_native_wallet_i.Flow.Bound.{
  IsObtained, get_pid_cie_id-IsObtained, get_credential-IsObtained,
}

abbrev text : String → Value
text s = Value.string s

abbrev none_of : Value
none_of = arr []

abbrev credential_metadata : Value
credential_metadata = obj (
    ("format", text "vc+sd-jwt")
    ∷ ("scope", text "scope")
    ∷ ("display", none_of)
    ∷ (
      "claims",
      obj (
          (
            "given_name",
            obj (
                ("value_type", text "string")
                ∷ ("display", arr (obj (("name", text "Nome") ∷ ("locale", text "it") ∷ []) ∷ []))
                ∷ []),
          )
          ∷ []),
    )
    ∷ ("cryptographic_binding_methods_supported", none_of)
    ∷ ("credential_signing_alg_values_supported", none_of)
    ∷ [])

abbrev issuer_metadata : Value
issuer_metadata = obj (
    ("credential_issuer", text "issuer")
    ∷ ("credential_endpoint", text "credential")
    ∷ ("revocation_endpoint", text "revoke")
    ∷ ("status_attestation_endpoint", text "status")
    ∷ ("display", none_of)
    ∷ (
      "credential_configurations_supported",
      obj (("PersonIdentificationData", credential_metadata) ∷ ("MDL", credential_metadata) ∷ []),
    )
    ∷ ("jwks", keys_value "issuer")
    ∷ [])

abbrev server_metadata : Value
server_metadata = obj (
    ("authorization_endpoint", text "authorize")
    ∷ ("pushed_authorization_request_endpoint", text "par")
    ∷ ("token_endpoint", text "token")
    ∷ ("client_registration_types_supported", none_of)
    ∷ ("code_challenge_methods_supported", none_of)
    ∷ ("acr_values_supported", none_of)
    ∷ ("grant_types_supported", none_of)
    ∷ ("issuer", text "issuer")
    ∷ ("jwks", keys_value "issuer")
    ∷ ("scopes_supported", none_of)
    ∷ ("response_modes_supported", arr (text "query" ∷ text "form_post.jwt" ∷ []))
    ∷ ("token_endpoint_auth_methods_supported", none_of)
    ∷ ("token_endpoint_auth_signing_alg_values_supported", none_of)
    ∷ ("request_object_signing_alg_values_supported", none_of)
    ∷ [])

abbrev entity : DecodedJwt
entity = record {
  protected_header =
      obj (
        ("typ", text "entity-statement+jwt") ∷ ("alg", text "ES256") ∷ ("kid", text "issuer") ∷ []);
  payload = obj (
      ("iss", text "issuer")
      ∷ ("sub", text "issuer")
      ∷ ("iat", Value.number 1)
      ∷ ("exp", Value.number 9)
      ∷ ("jwks", keys_value "issuer")
      ∷ (
        "metadata",
        obj (
            ("federation_entity", obj [])
            ∷ ("openid_credential_issuer", issuer_metadata)
            ∷ ("oauth_authorization_server", server_metadata)
            ∷ []),
      )
      ∷ []);
}

abbrev token_of : DecodedJwt
token_of = record {
  protected_header = obj (("typ", text "vc+sd-jwt") ∷ ("alg", text "ES256") ∷ []);
  payload = obj (
      ("iss", text "issuer")
      ∷ ("sub", text "holder")
      ∷ ("exp", Value.number 9)
      ∷ ("_sd_alg", text "sha-256")
      ∷ (
        "status",
        obj (("status_attestation", obj (("credential_hash_alg", text "sha-256") ∷ [])) ∷ []),
      )
      ∷ ("cnf", obj (("jwk", key_value "uuid") ∷ []))
      ∷ ("vct", text "MDL")
      ∷ ("_sd", arr (text "#d1" ∷ []))
      ∷ []);
}

abbrev request_object : DecodedJwt
request_object = record {
  protected_header = obj [];
  payload = obj (
      ("iss", text "issuer")
      ∷ ("iat", Value.number 1)
      ∷ ("exp", Value.number 9)
      ∷ ("state", text "s")
      ∷ ("nonce", text "n")
      ∷ ("response_uri", text "response")
      ∷ ("response_type", text "vp_token")
      ∷ ("response_mode", text "direct_post.jwt")
      ∷ ("client_id", text "issuer")
      ∷ ("client_id_scheme", text "entity_id")
      ∷ ("scope", text "pid")
      ∷ []);
}

abbrev code_value : Value
code_value = obj (("code", text "c") ∷ ("state", text "s") ∷ [])

abbrev page_jwt : DecodedJwt
page_jwt = record { protected_header = obj []; payload = code_value }

abbrev detail_value : String → Value
detail_value type = obj (
    ("credential_configuration_id", text type)
    ∷ ("format", text "vc+sd-jwt")
    ∷ ("type", text "openid_credential")
    ∷ [])

abbrev token_response : Value
token_response = obj (
    ("access_token", text "access")
    ∷ (
      "authorization_details",
      arr (detail_value "PersonIdentificationData" ∷ detail_value "MDL" ∷ []),
    )
    ∷ ("c_nonce", text "nonce")
    ∷ ("c_nonce_expires_in", Value.number 60)
    ∷ ("expires_in", Value.number 60)
    ∷ ("token_type", text "DPoP")
    ∷ [])

abbrev credential_response : Value
credential_response = obj (
    ("c_nonce", text "nonce")
    ∷ ("c_nonce_expires_in", Value.number 60)
    ∷ ("credential", text "jwt~d1")
    ∷ ("format", text "vc+sd-jwt")
    ∷ [])

abbrev answer : ℕ → String → String → String × Response
answer status url body =
    (url, record { status = status; url = url; content_type = none; text = body })

abbrev pub host : Host
host =
    table_host
      (("wia", attestation)
        ∷ ("entity", entity)
        ∷ ("jwt", token_of)
        ∷ ("object", request_object)
        ∷ ("page", page_jwt)
        ∷ [])
      (("d1", arr (text "salt" ∷ text "given_name" ∷ text "Ada" ∷ []))
        ∷ ("pushed", obj (("request_uri", text "urn:1") ∷ []))
        ∷ ("granted", token_response)
        ∷ ("issued", credential_response)
        ∷ ("posted", obj (("redirect_uri", text "redirect") ∷ []))
        ∷ ("app://?code", code_value)
        ∷ [])
      (answer 200 "https://issuer/.well-known/openid-federation" "entity"
        ∷ answer 201 "par" "pushed"
        ∷ answer 200 "authorize?params" "object"
        ∷ answer 200 "response" "posted"
        ∷ answer 200 "redirect" (page_of "page")
        ∷ answer 200 "token" "granted"
        ∷ answer 200 "credential" "issued"
        ∷ [])

abbrev fresh : World
fresh = record { sent = []; drawn = 0; key_calls = [] }

abbrev input : FlowInput
input = record {
  issuer_url = "https://issuer";
  redirect_uri = "app://";
  wallet_instance_attestation = "wia";
}

abbrev open_url : String → String → Async String
open_url redirect_uri auth_url = pure "app://?code"

abbrev wia_ctx : LiveContext
wia_ctx calls = record {
  get_public_key = host.public_key calls wia_keytag;
  get_signature = λ s. host.sign_with_key calls s wia_keytag;
}

abbrev attributes : Dict Attribute
attributes =
    (
      "given_name",
      record {
        name = localized (("it", "Nome") ∷ []);
        value = text "Ada";
        value_type = Option.some "string";
      },
    )
    ∷ []

abbrev pid : PidResult
pid = record { credential = "jwt~d1"; parsed_credential = attributes; key_tag = "uuid" }

abbrev licence : CredentialResult
licence = record {
  credential = "jwt~d1";
  parsed_credential = attributes;
  key_tag = "uuid";
  credential_type = mdl;
}

flow : Unit {0}
unfolding includes contains split join ends_with drop_last lookup insert spread keys prop truthy
    parse_jwk fix_base64_encoding_on_key send draw_uuid draw_below generate_key delete_key ◌>>=◌
    has_status_or_throw member create_dpop_token create_pop_token create_nonce_proof parse_unix_time
    parse_sd_jwt4_vc parse_disclosure decode decode_parts decode_disclosure verify verify_disclosure
    get_value_from_disclosures parse_jwks parse_display_metadata parse_supported_credential
    parse_entity_header parse_federation_entity parse_base_configuration
    parse_credential_issuer_configuration get_signed_entity_configuration
    fetch_and_parse_entity_configuration parse_wallet_instance_attestation Wallet.decode char_at
    generate_random_alpha_numeric_string make_par_request create_crypto_context_for
    regenerate_crypto_key form_post_match match_here match_name match_value after_literal greedy
    up_to_quote without_spaces get_jwt_from_form_post parse_request_object evaluate_issuer_trust
    parse_authorization_response parse_authorization_result select_credential_definition
    select_response_mode start_user_authorization parse_response_uri build_authorization_url
    complete_user_authorization_with_query_mode get_requested_credential_to_be_presented
    complete_user_authorization_with_form_post_jwt_mode authorize_access parse_token_response
    obtain_credential parse_credential_response parse_authorization_detail
    verify_and_parse_credential verify_and_parse_credential_sd_jwt verify_credential_sd_jwt
    is_bound_to parse_credential_sd_jwt new_credential_key obtain_and_parse authorize_pid
    get_pid_cie_id authorize_credential get_credential
flow = tt

abbrev after_pid : World
after_pid = (get_pid_cie_id host open_url input "hint" wia_ctx fresh).1

pid_example : get_pid_cie_id host open_url input "hint" wia_ctx fresh ≡ (ok pid, after_pid)
unfolding flow
pid_example = refl

get_pid_cie_id-IsObtained_example :
    IsObtained host "https://issuer" "uuid" "jwt~d1" attributes false fresh after_pid
get_pid_cie_id-IsObtained_example =
    get_pid_cie_id-IsObtained host open_url (λ r a. pure-Grows _) input "hint" wia_ctx fresh
      pid_example

abbrev after_credential : World
after_credential = (get_credential host input mdl "pid" wia_ctx wia_ctx fresh).1

credential_example :
    get_credential host input mdl "pid" wia_ctx wia_ctx fresh ≡ (ok licence, after_credential)
unfolding flow
credential_example = refl

get_credential-IsObtained_example :
    (mdl ≡ mdl)
    × IsObtained host "https://issuer" "uuid" "jwt~d1" attributes true fresh after_credential
get_credential-IsObtained_example =
    get_credential-IsObtained host input mdl "pid" wia_ctx wia_ctx fresh credential_example
