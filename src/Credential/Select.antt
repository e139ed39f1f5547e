-- ===== src/Credential/Select.antt =====
-- The choices of src/credential/issuance/03-start-user-authorization.ts and the authorization
-- response of src/credential/issuance/04-complete-user-authorization.ts with src/utils/auth.ts.
pub mod Choices
use io_react_native_wallet_i.Base.{
  String, Option, none, some, List, [], ◌∷◌, ◌==◌, ◌<>◌, filter, map, includes, contains,
  if◌then◌else◌,
}
use io_react_native_wallet_i.Base.Dict.{Dict, lookup, keys}
use io_react_native_wallet_i.Value.{Value, prop}
use io_react_native_wallet_i.Zod.{Zod, Schema, ◌>>=◌}
use io_react_native_wallet_i.Host.{Host}
use io_react_native_wallet_i.Errors.{error, authorization_error, new_authorization_idp_error}
use io_react_native_wallet_i.Errors.Result.{Result, ok, err}
use io_react_native_wallet_i.Trust.Types.{SupportedCredentialMetadata}
use io_react_native_wallet_i.Trust.Entities.{IssuerMetadata}
use io_react_native_wallet_i.Credential.Obtain.{AuthorizationDetail}

-- `configurations[key]!.format`, for a key of the configurations.
format_of : Dict SupportedCredentialMetadata → String → String
format_of configurations key = elim (lookup key configurations) [ none ↦ "" | some c ↦ c.format ]

detail_for : Dict SupportedCredentialMetadata → String → String → AuthorizationDetail
detail_for configurations credential_type key = record {
  credential_configuration_id = credential_type;
  format = format_of configurations key;
  type = "openid_credential";
}

abbrev pub candidates : Dict SupportedCredentialMetadata → String → List String
candidates configurations credential_type =
    filter (λ key. includes key credential_type) (keys configurations)

first_detail : String → List AuthorizationDetail → Result AuthorizationDetail
first_detail credential_type [] =
    err (error ("No credential support the type '" <> (credential_type <> "'")))
first_detail credential_type (d ∷ ds) = ok d

unfoldable pub select_credential_definition : IssuerMetadata → String → Result AuthorizationDetail
unfolding first_detail detail_for format_of
select_credential_definition issuer_conf credential_type =
    let configurations = issuer_conf.openid_credential_issuer.credential_configurations_supported in
    first_detail credential_type
      (map (detail_for configurations credential_type) (candidates configurations credential_type))

abbrev pub response_mode : String → String
response_mode credential_type =
    if credential_type == "PersonIdentificationData" then "query" else "form_post.jwt"

unfoldable pub select_response_mode : IssuerMetadata → String → Result String
select_response_mode issuer_conf credential_type =
    if contains issuer_conf.oauth_authorization_server.response_modes_supported
      (response_mode credential_type)
    then ok (response_mode credential_type)
    else err (error ("No response mode support the type '" <> (credential_type <> "'")))

pub record AuthorizationResult : Type 0 where
  pub code : String
  pub state : String
  pub iss : Option String

pub record AuthorizationFailure : Type 0 where
  pub error : String
  pub error_description : Option String
  pub error_uri : Option String
  pub state : Option String

module _ (z : Zod) where
  unfoldable pub parse_authorization_result : Schema AuthorizationResult
  parse_authorization_result v = do
    o ← z.object v
    code ← z.string (prop "code" o)
    state ← z.string (prop "state" o)
    iss ← z.optional z.string (prop "iss" o)
    some (record { code = code; state = state; iss = iss })

  unfoldable pub parse_authorization_failure : Schema AuthorizationFailure
  parse_authorization_failure v = do
    o ← z.object v
    code ← z.string (prop "error" o)
    description ← z.optional z.string (prop "error_description" o)
    uri ← z.optional z.string (prop "error_uri" o)
    state ← z.optional z.string (prop "state" o)
    some (record { error = code; error_description = description; error_uri = uri; state = state })

module _ (H : Host) where
  unfoldable pub parse_authorization_response : Value → Result AuthorizationResult
  parse_authorization_response auth_res = elim (parse_authorization_result H.zod auth_res) [
    | some r ↦ ok r
    | none ↦ elim (parse_authorization_failure H.zod auth_res) [
      | some f ↦ err (new_authorization_idp_error H.json_stringify f.error f.error_description)
      | none ↦ err (authorization_error (H.zod.error_message "AuthorizationResultShape" auth_res))
    ]
  ]
