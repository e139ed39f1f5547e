-- ===== src/Provider/Tests.antt =====
-- A provider that refuses an attestation.
use io_react_native_wallet_i.Base.{none, some, [], ◌∷◌, ◌<>◌}
use io_react_native_wallet_i.Value.{Value, obj}
use io_react_native_wallet_i.Host.{Host, Response}
use io_react_native_wallet_i.Errors.Result.{ok}
use io_react_native_wallet_i.Promise.{World}
use io_react_native_wallet_i.Sample.{table_host}
use io_react_native_wallet_i.Provider.{Generated, IntegrityContext, get_attestation}

abbrev pub generated : Generated
generated = record {
  create_api_client =
      λ fetcher base_url method path params. fetcher method (base_url <> path) params;
  problem_detail = λ v. some v;
}

abbrev integrity : IntegrityContext
integrity = record {
  hardware_key_tag = "hardware";
  get_attestation = λ v. ok "attestation";
  get_hardware_signature_with_auth_data = λ s. ok ("signature", "assertion");
}

abbrev nonce_response : Response
nonce_response = record {
  status = 200;
  url = "https://wp/nonce";
  content_type = some "application/json";
  text = "nonce";
}

abbrev refusal : Response
refusal = record { status = 403; url = "https://wp/token"; content_type = none; text = "revoked" }

abbrev nonce_value : Value
nonce_value = obj (("nonce", Value.string "n") ∷ [])

abbrev host : Host
host =
    table_host [] (("nonce", nonce_value) ∷ [])
      (("https://wp/nonce", nonce_response) ∷ ("https://wp/token", refusal) ∷ [])

abbrev fresh : World
fresh = record { sent = []; drawn = 0; key_calls = [] }
