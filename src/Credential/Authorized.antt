-- ===== src/Credential/Authorized.antt =====
-- A run of the issuance up to the token response: tests of the authorization steps.
use io_react_native_wallet_i.Base.{
  arith, ◌≡◌, refl, ℕ, String, none, some, [], ◌∷◌, includes, contains, has_char,
}
use io_react_native_wallet_i.Base.Dict.{lookup, keys}
use io_react_native_wallet_i.Value.{Value, prop, obj, arr}
use io_react_native_wallet_i.Jwk.{parse_jwk}
use io_react_native_wallet_i.Host.{Host, DecodedJwt, Response}
use io_react_native_wallet_i.Errors.Result.{ok, ◌>>=◌}
use io_react_native_wallet_i.Promise.{World, send, draw_uuid, draw_below}
use io_react_native_wallet_i.Http.{has_status_or_throw, member}
use io_react_native_wallet_i.Tokens.{create_dpop_token, create_pop_token}
use io_react_native_wallet_i.Sample.{table_host, attestation}
use io_react_native_wallet_i.SdJwt.Types.{parse_unix_time}
use io_react_native_wallet_i.Wallet.{decode, parse_wallet_instance_attestation}
use io_react_native_wallet_i.Trust.Entities.{IssuerMetadata}
use io_react_native_wallet_i.Random.{char_at, generate_random_alpha_numeric_string}
use io_react_native_wallet_i.Random.Alphabet.{
  IsAlphanumeric, generate_random_alpha_numeric_string-IsAlphanumeric,
}
use io_react_native_wallet_i.Par.{make_par_request}
use io_react_native_wallet_i.FormPost.{
  form_post_match, match_here, match_name, match_value, after_literal, greedy, up_to_quote,
  without_spaces, get_jwt_from_form_post,
}
use io_react_native_wallet_i.FormPost.Page.{get_jwt_from_form_post-page_of, page_of}
use io_react_native_wallet_i.Presentation.{RequestObject}
use io_react_native_wallet_i.Credential.Tests
use io_react_native_wallet_i.Credential.Tests.{ctx}
use io_react_native_wallet_i.Credential.Select.{
  AuthorizationResult, parse_authorization_response, parse_authorization_result,
  select_credential_definition, select_response_mode,
}
use io_react_native_wallet_i.Credential.Obtain.{TokenResponse, parse_authorization_detail}
use io_react_native_wallet_i.Credential.Authorize.{
  UserAuthorization, start_user_authorization, parse_response_uri,
  complete_user_authorization_with_form_post_jwt_mode,
}
use io_react_native_wallet_i.Credential.Authorize.Started.{
  IsStarted, start_user_authorization-IsStarted,
}
use io_react_native_wallet_i.Credential.Authorize.Presented.{
  IsPresented, complete_user_authorization-IsPresented,
}
use io_react_native_wallet_i.Credential.Access.{
  AccessRequest, authorize_access, parse_token_response,
}
use io_react_native_wallet_i.Credential.Access.Granted.{IsGranted, authorize_access-IsGranted}

abbrev answer : ℕ → String → String → String × Response
answer status url text =
    (url, record { status = status; url = url; content_type = none; text = text })

abbrev detail_value : Value
detail_value = obj (
    ("credential_configuration_id", Value.string "MDL")
    ∷ ("format", Value.string "vc+sd-jwt")
    ∷ ("type", Value.string "openid_credential")
    ∷ [])

abbrev token_value : Value
token_value = obj (
    ("access_token", Value.string "access")
    ∷ ("authorization_details", arr (detail_value ∷ []))
    ∷ ("c_nonce", Value.string "nonce")
    ∷ ("c_nonce_expires_in", Value.number 60)
    ∷ ("expires_in", Value.number 60)
    ∷ ("token_type", Value.string "DPoP")
    ∷ [])

abbrev page_jwt : DecodedJwt
page_jwt = record {
  protected_header = obj [];
  payload = obj (("code", Value.string "c") ∷ ("state", Value.string "s") ∷ []);
}

abbrev host : Host
host =
    table_host (("wia", attestation) ∷ ("page", page_jwt) ∷ [])
      (("pushed", obj (("request_uri", Value.string "urn:1") ∷ []))
        ∷ ("granted", token_value)
        ∷ ("posted", obj (("redirect_uri", Value.string "redirect") ∷ []))
        ∷ [])
      (answer 201 "par" "pushed"
        ∷ answer 200 "token" "granted"
        ∷ answer 200 "response" "posted"
        ∷ answer 200 "redirect" (page_of "page")
        ∷ [])

abbrev conf : IssuerMetadata
conf = record {
  openid_credential_issuer = Tests.conf.openid_credential_issuer;
  oauth_authorization_server = record Tests.conf.oauth_authorization_server {
    response_modes_supported = "form_post.jwt" ∷ [];
  };
  wallet_relying_party = none;
}

abbrev fresh : World
fresh = record { sent = []; drawn = 0; key_calls = [] }

generate_random_example :
    (s : String) × (generate_random_alpha_numeric_string host 4 fresh
      ≡ (ok s, record fresh { drawn = 4 }))
    × IsAlphanumeric 4 s
generate_random_example =
    generate_random_alpha_numeric_string-IsAlphanumeric host (λ n. omega arith) 4 fresh

abbrev started : UserAuthorization
started = record {
  issuer_request_uri = Value.string "urn:1";
  client_id = some "k";
  code_verifier = "0000000000000000000000000000000000000000000000000000000000000000";
  credential_definition = record {
    credential_configuration_id = "MDL";
    format = "vc+sd-jwt";
    type = "openid_credential";
  };
}

abbrev after_start : World
after_start = (start_user_authorization host conf "MDL" ctx "wia" "app://" fresh).1

start_example :
    start_user_authorization host conf "MDL" ctx "wia" "app://" fresh ≡ (ok started, after_start)
unfolding start_user_authorization select_credential_definition select_response_mode lookup keys
    includes contains generate_random_alpha_numeric_string draw_below draw_uuid send char_at
    make_par_request create_pop_token decode parse_wallet_instance_attestation parse_jwk
    parse_unix_time prop has_status_or_throw member
start_example = refl

start_user_authorization-IsStarted_example :
    IsStarted host conf "MDL" ctx "wia" "app://" started fresh after_start
start_user_authorization-IsStarted_example =
    start_user_authorization-IsStarted host (λ n. omega arith) conf "MDL" ctx "wia" "app://" fresh
      start_example

abbrev access : AccessRequest
access = record {
  code = "c";
  client_id = some "k";
  redirect_uri = "app://";
  code_verifier = "verifier";
  wallet_instance_attestation = "wia";
}

abbrev token : TokenResponse
token = record {
  access_token = "access";
  authorization_details = started.credential_definition ∷ [];
  c_nonce = "nonce";
  c_nonce_expires_in = 60;
  expires_in = 60;
  token_type = "DPoP";
}

abbrev after_access : World
after_access = (authorize_access host conf access ctx ctx fresh).1

access_example : authorize_access host conf access ctx ctx fresh ≡ (ok token, after_access)
unfolding authorize_access draw_uuid send create_dpop_token create_pop_token decode
    parse_wallet_instance_attestation parse_jwk parse_unix_time prop has_status_or_throw
    parse_token_response parse_authorization_detail
access_example = refl

authorize_access-IsGranted_example : IsGranted host conf access ctx ctx token fresh after_access
authorize_access-IsGranted_example =
    authorize_access-IsGranted host conf access ctx ctx fresh access_example

abbrev object : RequestObject
object = record {
  iss = "issuer";
  iat = 1;
  exp = 9;
  state = "s";
  nonce = "n";
  response_uri = "response";
  client_id = "issuer";
  scope = "pid";
}

abbrev result : AuthorizationResult
result = record { code = "c"; state = "s"; iss = none }

abbrev after_presentation : World
after_presentation =
    (complete_user_authorization_with_form_post_jwt_mode host object ctx ctx "pid" "wia" fresh).1

presentation_example :
    complete_user_authorization_with_form_post_jwt_mode host object ctx ctx "pid" "wia" fresh
    ≡ (ok result, after_presentation)
unfolding complete_user_authorization_with_form_post_jwt_mode draw_uuid send has_status_or_throw
    prop parse_response_uri get_jwt_from_form_post form_post_match match_here match_name match_value
    after_literal greedy up_to_quote without_spaces parse_authorization_response
    parse_authorization_result
presentation_example = refl

presentation-IsPresented_example :
    IsPresented host object ctx ctx "pid" "wia" result fresh after_presentation
presentation-IsPresented_example =
    complete_user_authorization-IsPresented host object ctx ctx "pid" "wia" fresh
      presentation_example

get_jwt_example : get_jwt_from_form_post host (page_of "page") ≡ (
    host.jwt_decode (without_spaces "page") >>= λ decoded.
    ok (record { jwt = without_spaces "page"; decoded_jwt = decoded }))
unfolding has_char
get_jwt_example = get_jwt_from_form_post-page_of host "page" refl refl
