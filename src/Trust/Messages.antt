-- ===== src/Trust/Messages.antt =====
-- `extractErrorMessageFromIssuerConf` of src/utils/errors.ts: the messages of an issuer for an error.
use io_react_native_wallet_i.Base.{◌≡◌, refl, String, Option, none, some, List, [], ◌∷◌, map, ◌<>◌}
use io_react_native_wallet_i.Base.Dict.{Dict, lookup, insert, spread, last_of, lookup-from_entries}
use io_react_native_wallet_i.Errors.{io_wallet_error}
use io_react_native_wallet_i.Errors.Result.{Result, ok, err}
use io_react_native_wallet_i.Trust.Types.{IssuanceErrorDisplay}
use io_react_native_wallet_i.Trust.Entities.{IssuerMetadata}

-- The value of a locale in `LocalizedIssuanceError`.
pub record IssuanceMessage : Type 0 where
  pub title : String
  pub description : String

abbrev pub message_of : IssuanceErrorDisplay → IssuanceMessage
message_of d = record { title = d.title; description = d.description }

unfoldable pub localize : Dict IssuanceMessage → List IssuanceErrorDisplay → Dict IssuanceMessage
localize acc [] = acc
localize acc (d ∷ ds) = localize (insert d.locale (message_of d) acc) ds

unfoldable pub extract_error_message_from_issuer_conf :
    (error_code : String)
    → IssuerMetadata
    → (credential_type : String) → Result (Option (Dict IssuanceMessage))
extract_error_message_from_issuer_conf error_code conf credential_type =
    elim (lookup credential_type
      conf.openid_credential_issuer.credential_configurations_supported) [
        | none ↦ err (
            io_wallet_error
              ("No configuration found for " <> (credential_type <> " in the provided EC")))
        | some configuration ↦ elim configuration.issuance_errors_supported [
          | none ↦ ok none
          | some errors ↦ elim (lookup error_code errors) [
            | none ↦ ok none
            | some display ↦ ok (some (localize [] display))
          ]
        ]
      ]

localize-eq :
    (acc : Dict IssuanceMessage) (ds : List IssuanceErrorDisplay)
    → localize acc ds ≡ spread acc (map (λ d. (d.locale, message_of d)) ds)
unfolding localize spread
localize-eq acc [] = refl
localize-eq acc (d ∷ ds) = localize-eq (insert d.locale (message_of d) acc) ds

-- Of several messages for a locale, the last one is taken.
pub lookup-localize :
    (locale : String) (ds : List IssuanceErrorDisplay)
    → lookup locale (localize [] ds) ≡ last_of locale (map (λ d. (d.locale, message_of d)) ds)
lookup-localize locale ds = rw (localize-eq [] ds) (lookup-from_entries locale _)
