-- ===== src/Errors/Codes.antt =====
-- Which code an unexpected status gets.
use io_react_native_wallet_i.Base.{
  ◌≡◌, refl, ℕ, String, some, List, [], ◌∷◌, arith, same_number, if◌then◌else◌,
}
use io_react_native_wallet_i.Value.{Value}
use io_react_native_wallet_i.Errors.{
  Error, Failure, IssuerResponseErrorCode, WalletProviderResponseErrorCode,
  as_unexpected_status_code_error, credential_issuing_not_synchronous, credential_invalid_status,
  credential_request_failed, status_attestation_request_failed, wallet_instance_revoked,
  wallet_instance_not_found, wallet_instance_integrity_failed,
  wallet_instance_attestation_issuing_failed, wallet_instance_creation_failed,
  issuer_response_error, new_failure,
}
use io_react_native_wallet_i.Errors.Builder.{
  ResponseErrorBuilder, ErrorCase, StatusKey, status, any, same_key, handle, build_from, build_with,
  case_of, assign, new_issuer_response_error,
}
use io_react_native_wallet_i.Errors.Handlers.{
  handle_obtain_credential_error, handle_status_attestation_error,
}

module _ {C : Type 0} where
  case_of-assign :
      (k j : StatusKey) (c : ErrorCase C) (cases : List (StatusKey × ErrorCase C))
      → case_of j (assign k c cases) ≡ (if same_key k j then some c else case_of j cases)
  unfolding case_of assign
  case_of-assign k j c [] = refl
  case_of-assign (status m) (status n) c ((status l, d) ∷ cases) =
      ground (arith, case_of-assign (status m) (status n) c cases)
  case_of-assign (status m) (status n) c ((any, d) ∷ cases) =
      case_of-assign (status m) (status n) c cases
  case_of-assign (status m) any c ((status l, d) ∷ cases) =
      ground (arith, case_of-assign (status m) any c cases)
  case_of-assign (status m) any c ((any, d) ∷ cases) = refl
  case_of-assign any (status n) c ((status l, d) ∷ cases) =
      ground (arith, case_of-assign any (status n) c cases)
  case_of-assign any (status n) c ((any, d) ∷ cases) = refl
  case_of-assign any any c ((status l, d) ∷ cases) = case_of-assign any any c cases
  case_of-assign any any c ((any, d) ∷ cases) = refl

  -- After a case for one status is added, an error of that status is built from the case, whatever
  -- cases were there before, and an error of another status as before.
  pub build_from-handle :
      (n : ℕ) (c : ErrorCase C) (b : ResponseErrorBuilder C) (e : Error) (f : Failure)
      → build_from (handle (status n) c b) e f
        ≡ (if same_number n f.status_code then build_with b f c else build_from b e f)
  unfolding build_from handle build_with
  build_from-handle n c b e f =
      rw
        (
          case_of-assign (status n) (status f.status_code) c b.error_cases,
          case_of-assign (status n) any c b.error_cases,
          build_from,
          handle,
        )
        (ground arith)

-- The code and the message of a status when a credential is obtained.
abbrev pub obtain_code : ℕ → IssuerResponseErrorCode
obtain_code n =
    if same_number n 201
    then credential_issuing_not_synchronous
    else if same_number n 403
    then credential_invalid_status
    else if same_number n 404
    then credential_invalid_status
    else credential_request_failed

abbrev pub obtain_message : ℕ → String
obtain_message n =
    if same_number n 201
    then "This credential cannot be issued synchronously. It will be available at a later time."
    else if same_number n 403
    then "Invalid status found for the given credential"
    else if same_number n 404
    then "Invalid status found for the given credential"
    else "Unable to obtain the requested credential"

abbrev pub status_code_of : ℕ → IssuerResponseErrorCode
status_code_of n =
    if same_number n 404 then credential_invalid_status else status_attestation_request_failed

abbrev pub status_message_of : ℕ → String
status_message_of n =
    if same_number n 404
    then "Invalid status found for the given credential"
    else "Unable to obtain the status attestation for the given credential"

abbrev pub attestation_code : ℕ → WalletProviderResponseErrorCode
attestation_code n =
    if same_number n 403
    then wallet_instance_revoked
    else if same_number n 404
    then wallet_instance_not_found
    else if same_number n 409
    then wallet_instance_integrity_failed
    else wallet_instance_attestation_issuing_failed

abbrev pub creation_code : ℕ → WalletProviderResponseErrorCode
creation_code n =
    if same_number n 409 then wallet_instance_integrity_failed else wallet_instance_creation_failed

abbrev pub attestation_message : ℕ → String
attestation_message n =
    if same_number n 403
    then "Unable to get an attestation for a revoked Wallet Instance"
    else if same_number n 404
    then "Unable to get an attestation for a Wallet Instance that does not exist"
    else if same_number n 409
    then "Unable to get an attestation for a Wallet Instance that failed the integrity check"
    else "Unable to obtain wallet instance attestation"

abbrev pub creation_message : ℕ → String
creation_message n =
    if same_number n 409
    then "Unable to create a wallet instance with a device that failed the integrity check"
    else "Unable to create wallet instance"

module _ (stringify : Value → String) where
  -- An error with an unexpected status, of whatever class, becomes an issuer error that keeps the
  -- status and the reason and has the code of the status when a credential is obtained.
  pub handle_obtain_lem :
      (e : Error) (f : Failure)
      → as_unexpected_status_code_error e ≡ some f
      → handle_obtain_credential_error stringify e
        ≡ issuer_response_error
            (obtain_code f.status_code)
            (new_failure stringify (obtain_message f.status_code) f.reason f.status_code)
  unfolding handle_obtain_credential_error build_from handle build_with case_of assign
      new_issuer_response_error
  handle_obtain_lem e f h = rw (h, handle_obtain_credential_error) (ground arith)

  pub handle_status_lem :
      (e : Error) (f : Failure)
      → as_unexpected_status_code_error e ≡ some f
      → handle_status_attestation_error stringify e
        ≡ issuer_response_error
            (status_code_of f.status_code)
            (new_failure stringify (status_message_of f.status_code) f.reason f.status_code)
  unfolding handle_status_attestation_error build_from handle build_with case_of assign
      new_issuer_response_error
  handle_status_lem e f h = rw (h, handle_status_attestation_error) (ground arith)
