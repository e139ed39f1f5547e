-- ===== src/Errors/Builder.antt =====
-- `ResponseErrorBuilder` (src/utils/errors.ts): the table of cases, `handle` and `buildFrom`.
use io_react_native_wallet_i.Base.{ℕ, String, Bool, true, false, Option, none, some, List, [], ◌∷◌}
use io_react_native_wallet_i.Base.{if◌then◌else◌, same_number, or_else}
use io_react_native_wallet_i.Value.{Value}
use io_react_native_wallet_i.Errors.{
  Error, Failure, GenericErrorReason, IssuerResponseErrorCode, WalletProviderResponseErrorCode,
  issuer_generic_error, wallet_provider_generic_error, issuer_response_error,
  wallet_provider_response_error, new_failure,
}

-- A key of the table: a status, or `"*"`.
pub data StatusKey : Type 0 where
  status : ℕ → StatusKey
  any : StatusKey

abbrev pub same_key : StatusKey → StatusKey → Bool
same_key (status m) (status n) = same_number m n
same_key any any = true
same_key _ _ = false

pub record ErrorCase (C : Type 0) : Type 0 where
  pub code : C
  pub message : String
  pub reason : Option GenericErrorReason

abbrev or_generic {ℓ} : {A : Type ℓ} → Option A → A → A
or_generic none a = a
or_generic (some b) a = b

module _ (stringify : Value → String) where
  -- `new IssuerResponseError({ code, message, reason, statusCode })`
  unfoldable pub new_issuer_response_error :
      Option IssuerResponseErrorCode → String → GenericErrorReason → ℕ → Error
  new_issuer_response_error code message reason n =
      issuer_response_error (or_generic code issuer_generic_error)
        (new_failure stringify message reason n)

  -- `new WalletProviderResponseError({ code, message, reason, statusCode })`
  unfoldable pub new_wallet_provider_response_error :
      Option WalletProviderResponseErrorCode → String → GenericErrorReason → ℕ → Error
  new_wallet_provider_response_error code message reason n =
      wallet_provider_response_error (or_generic code wallet_provider_generic_error)
        (new_failure stringify message reason n)

-- The constructor of a class of errors, and the cases in order of their keys' first use.
pub record ResponseErrorBuilder (C : Type 0) : Type 0 where
  pub error_class : Option C → String → GenericErrorReason → ℕ → Error
  pub error_cases : List (StatusKey × ErrorCase C)

module _ {C : Type 0} where
  unfoldable pub case_of : StatusKey → List (StatusKey × ErrorCase C) → Option (ErrorCase C)
  case_of k [] = none
  case_of k ((j, c) ∷ cases) = if same_key j k then some c else case_of k cases

  unfoldable pub assign :
      StatusKey → ErrorCase C → List (StatusKey × ErrorCase C) → List (StatusKey × ErrorCase C)
  assign k c [] = (k, c) ∷ []
  assign k c ((j, d) ∷ cases) = if same_key j k then (j, c) ∷ cases else (j, d) ∷ assign k c cases

  unfoldable pub handle : StatusKey → ErrorCase C → ResponseErrorBuilder C → ResponseErrorBuilder C
  handle k params b = record b { error_cases = assign k params b.error_cases }

  -- `new this.ErrorClass({ ...originalError, ...params })`: the case's message and code, the
  -- original status, and the original reason if the case has none.
  unfoldable pub build_with : ResponseErrorBuilder C → Failure → ErrorCase C → Error
  build_with b f params =
      b.error_class (some params.code) params.message (or_generic params.reason f.reason)
        f.status_code

  -- `original` is the error itself, `f` its fields.
  unfoldable pub build_from : ResponseErrorBuilder C → Error → Failure → Error
  unfolding case_of
  build_from b original f =
      elim (or_else (case_of (status f.status_code) b.error_cases) (case_of any b.error_cases)) [
        | some params ↦ build_with b f params
        | none ↦ original
      ]
