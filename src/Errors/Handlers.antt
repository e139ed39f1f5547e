-- ===== src/Errors/Handlers.antt =====
-- The functions that map an unexpected status to an error code:
-- src/credential/issuance/06-obtain-credential.ts, src/credential/status/02-status-attestation.ts,
-- src/wallet-instance-attestation/issuing.ts and src/wallet-instance/index.ts.
use io_react_native_wallet_i.Base.{String, none, some, []}
use io_react_native_wallet_i.Value.{Value}
use io_react_native_wallet_i.Errors.{
  Error, IssuerResponseErrorCode, WalletProviderResponseErrorCode, as_unexpected_status_code_error,
  as_wallet_provider_response_error, credential_issuing_not_synchronous, credential_invalid_status,
  credential_request_failed, status_attestation_request_failed, wallet_instance_revoked,
  wallet_instance_not_found, wallet_instance_integrity_failed,
  wallet_instance_attestation_issuing_failed, wallet_instance_creation_failed,
}
use io_react_native_wallet_i.Errors.Builder.{
  ResponseErrorBuilder, ErrorCase, status, any, handle, build_from, new_issuer_response_error,
  new_wallet_provider_response_error,
}

abbrev on : {C : Type 0} → C → String → ErrorCase C
on code message = record { code = code; message = message; reason = none }

module _ (stringify : Value → String) where
  abbrev issuer_builder : ResponseErrorBuilder IssuerResponseErrorCode
  issuer_builder = record { error_class = new_issuer_response_error stringify; error_cases = [] }

  abbrev provider_builder : ResponseErrorBuilder WalletProviderResponseErrorCode
  provider_builder = record {
    error_class = new_wallet_provider_response_error stringify;
    error_cases = [];
  }

  abbrev obtain_credential_builder : ResponseErrorBuilder IssuerResponseErrorCode
  obtain_credential_builder =
      handle any (on credential_request_failed "Unable to obtain the requested credential") (
        handle (status 404)
          (on credential_invalid_status "Invalid status found for the given credential")
          (handle (status 403)
            (on credential_invalid_status "Invalid status found for the given credential")
            (handle (status 201)
              (on credential_issuing_not_synchronous
                "This credential cannot be issued synchronously. It will be available at a later time.")
              issuer_builder)))

  -- Each handler throws what it gives here.
  unfoldable pub handle_obtain_credential_error : Error → Error
  handle_obtain_credential_error e = elim (as_unexpected_status_code_error e) [
    | none ↦ e
    | some f ↦ build_from obtain_credential_builder e f
  ]

  abbrev status_attestation_builder : ResponseErrorBuilder IssuerResponseErrorCode
  status_attestation_builder =
      handle any
        (on status_attestation_request_failed
          "Unable to obtain the status attestation for the given credential")
        (handle (status 404)
          (on credential_invalid_status "Invalid status found for the given credential")
          issuer_builder)

  unfoldable pub handle_status_attestation_error : Error → Error
  handle_status_attestation_error e = elim (as_unexpected_status_code_error e) [
    | none ↦ e
    | some f ↦ build_from status_attestation_builder e f
  ]

  abbrev attestation_creation_builder : ResponseErrorBuilder WalletProviderResponseErrorCode
  attestation_creation_builder =
      handle any
        (on wallet_instance_attestation_issuing_failed
          "Unable to obtain wallet instance attestation")
        (handle (status 409)
          (on wallet_instance_integrity_failed
            "Unable to get an attestation for a Wallet Instance that failed the integrity check")
          (handle (status 404)
            (on wallet_instance_not_found
              "Unable to get an attestation for a Wallet Instance that does not exist")
            (handle (status 403)
              (on wallet_instance_revoked
                "Unable to get an attestation for a revoked Wallet Instance")
              provider_builder)))

  unfoldable pub handle_attestation_creation_error : Error → Error
  handle_attestation_creation_error e = elim (as_wallet_provider_response_error e) [
    | none ↦ e
    | some f ↦ build_from attestation_creation_builder e f
  ]

  abbrev create_wallet_instance_builder : ResponseErrorBuilder WalletProviderResponseErrorCode
  create_wallet_instance_builder =
      handle any (on wallet_instance_creation_failed "Unable to create wallet instance") (
        handle (status 409)
          (on wallet_instance_integrity_failed
            "Unable to create a wallet instance with a device that failed the integrity check")
          provider_builder)

  unfoldable pub handle_create_wallet_instance_error : Error → Error
  handle_create_wallet_instance_error e = elim (as_wallet_provider_response_error e) [
    | none ↦ e
    | some f ↦ build_from create_wallet_instance_builder e f
  ]
