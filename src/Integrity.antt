-- ===== src/Integrity.antt =====
-- The integrity service of the device: example/src/utils/integrity.ts.
use io_react_native_wallet_i.Base.{
  String, Bool, true, false, Option, none, some, ◌==◌, if◌then◌else◌,
}
use io_react_native_wallet_i.Value.{Value}
use io_react_native_wallet_i.Host.{Host}
use io_react_native_wallet_i.Errors.{foreign}
use io_react_native_wallet_i.Errors.Result.{Result, ok, err, ◌>>=◌}
use io_react_native_wallet_i.Promise
use io_react_native_wallet_i.Promise.{Async, lift, draw_uuid}
use io_react_native_wallet_i.Provider.{IntegrityContext}

-- `Platform.OS`
pub data Platform : Type 0 where
  ios android other : Platform

-- What @pagopa/io-react-native-integrity does, and `sign` and `addPadding` of its sisters.
pub record NativeIntegrity : Type 0 where
  pub get_attestation : Value → String → Result String
  pub generate_hardware_signature_with_assertion : String → String → Result String
  pub decode_assertion : String → Result (String × String)
  pub request_integrity_token : String → Result String
  pub sign : String → String → Result String
  pub add_padding : String → String
  pub is_attestation_service_available : Result Bool
  pub is_play_services_available : Result Bool
  pub prepare_integrity_token : String → Result (Unit {0})
  pub generate_hardware_key : Result String

module _ (H : Host) (N : NativeIntegrity) where
  unfoldable pub get_hardware_signature_with_auth_data :
      Platform → String → String → Result (String × String)
  get_hardware_signature_with_auth_data ios tag client_data = do
    assertion ← N.generate_hardware_signature_with_assertion client_data (N.add_padding tag)
    N.decode_assertion assertion
  get_hardware_signature_with_auth_data android tag client_data = do
    signature ← N.sign client_data tag
    authenticator_data ← N.request_integrity_token (H.sha256 client_data)
    ok (signature, authenticator_data)
  get_hardware_signature_with_auth_data other tag client_data = err (foreign "Unsupported platform")

  unfoldable pub integrity_attestation : Platform → Value → String → Result String
  integrity_attestation ios challenge tag = N.get_attestation challenge (N.add_padding tag)
  integrity_attestation android challenge tag = N.get_attestation challenge tag
  integrity_attestation other challenge tag = err (foreign "Unsupported platform")

  abbrev pub get_integrity_context : Platform → String → IntegrityContext
  get_integrity_context platform tag = record {
    hardware_key_tag = tag;
    get_attestation = λ nonce. integrity_attestation platform nonce tag;
    get_hardware_signature_with_auth_data =
        λ client_data. get_hardware_signature_with_auth_data platform tag client_data;
  }

  unfoldable pub generate_integrity_hardware_key_tag : Platform → Async String
  generate_integrity_hardware_key_tag ios =
      Promise.◌>>=◌ (lift N.generate_hardware_key) λ key. Promise.pure (H.remove_padding key)
  generate_integrity_hardware_key_tag android = draw_uuid H
  generate_integrity_hardware_key_tag other = lift (err (foreign "Unsupported platform"))

  -- The project number may be missing or empty.
  abbrev prepare : Option String → Result Bool
  prepare none = err (foreign "Google Cloud Project Number is required for Android")
  prepare (some number) =
      if number == ""
      then err (foreign "Google Cloud Project Number is required for Android")
      else (N.prepare_integrity_token number >>= λ _. ok true)

  unfoldable pub ensure_integrity_service_is_ready : Platform → Option String → Result Bool
  ensure_integrity_service_is_ready ios number = N.is_attestation_service_available
  ensure_integrity_service_is_ready android number = do
    res ← N.is_play_services_available
    if res then prepare number else ok false
  ensure_integrity_service_is_ready other number = err (foreign "Unsupported platform")

-- `isAndroid`
abbrev pub is_android : Platform → Bool
is_android android = true
is_android _ = false
