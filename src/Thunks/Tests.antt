-- ===== src/Thunks/Tests.antt =====
-- Runs of the thunks.
use io_react_native_wallet_i.Base.{
  ◌≡◌, refl, ◌⊎◌, String, Bool, true, false, Option, none, some, [], ◌==◌, eq_refl, if◌then◌else◌,
}
use io_react_native_wallet_i.Value.{Value, prop}
use io_react_native_wallet_i.Jwk.{parse_jwk}
use io_react_native_wallet_i.Sample.{key_of}
use io_react_native_wallet_i.SdJwt.Types.{parse_unix_time}
use io_react_native_wallet_i.Errors.{Error, GenericErrorReason, foreign}
use io_react_native_wallet_i.Errors.Result.{Result, ok, err}
use io_react_native_wallet_i.Promise.{World}
use io_react_native_wallet_i.Integrity.{android, NativeIntegrity}
use io_react_native_wallet_i.Store.{
  revoke_wallet_instance, get_attestation, mdl, get_credential, pending, failed,
}
use io_react_native_wallet_i.Store.Root.{initial, root_reducer}
use io_react_native_wallet_i.Store.Slices.{instance_reducer}
use io_react_native_wallet_i.Flow.Tests.{host}
use io_react_native_wallet_i.Provider.Tests.{generated}
use io_react_native_wallet_i.Wallet.{WalletInstanceAttestationJwt}
use io_react_native_wallet_i.Wallet
use io_react_native_wallet_i.Thunks.{
  Toolkit, IsToolkit, Environments, Env, App, dispatched, settled, ensure_attestation,
  get_attestation_thunk, ◌>>=◌, get_credential_thunk,
}
use io_react_native_wallet_i.Thunks.Renewal.{
  ensure_attestation-remembered, ensure_attestation_rejected,
}
use io_react_native_wallet_i.Provider
use io_react_native_wallet_i.Thunks.Instance.{revoke_wallet_instance_thunk}
use io_react_native_wallet_i.Thunks.Revoked.{revoked, revoke_wallet_instance_thunk-eq}
use io_react_native_wallet_i.Thunks.Stored.{IsStored, IsFailed, get_credential_thunk-IsStored}

abbrev serialize : Error → Value
serialize (foreign message) = Value.string message
serialize _ = Value.null

abbrev same : Option String → Option String → Bool
same none none = true
same (some a) (some b) = a == b
same _ _ = false

abbrev kept_answer : Result Bool → Option String → Option (Option String × Bool)
kept_answer (ok b) input = some (input, b)
kept_answer (err e) input = none

abbrev toolkit : Toolkit
toolkit = record {
  dispatch_thunk = λ lifecycle arg body s.
      settled serialize lifecycle arg (body (dispatched (lifecycle (pending arg)) s));
  select = λ f memory input. elim memory [
    | none ↦ (f input, kept_answer (f input) input)
    | some m ↦ if same m.0 input then (ok m.1, some m) else (f input, kept_answer (f input) input)
  ];
}

same_refl : (o : Option String) → same o o ≡ true
same_refl none = refl
same_refl (some a) = eq_refl a

toolkit-IsToolkit : IsToolkit toolkit serialize
toolkit-IsToolkit = record {
  dispatches = λ lifecycle arg body s. refl;
  remembers = λ f input b. rw (same_refl input) refl;
  computes = λ f input h. rw h refl;
}

abbrev env : Env
env = record {
  wallet_provider_base_url = "https://wp";
  wallet_pid_provider_base_url = "https://issuer";
  wallet_eaa_provider_base_url = "https://issuer";
  redirect_uri = "app://";
  google_cloud_project_number = "1";
}

abbrev vars : Environments
vars = record { pre_env = env; prod_env = env }

abbrev native : NativeIntegrity
native = record {
  get_attestation = λ challenge tag. ok "attestation";
  generate_hardware_signature_with_assertion = λ value tag. ok "assertion";
  decode_assertion = λ assertion. ok ("signature", "data");
  request_integrity_token = λ hash. ok "token";
  sign = λ value tag. ok "signature";
  add_padding = λ s. s;
  is_attestation_service_available = ok true;
  is_play_services_available = ok true;
  prepare_integrity_token = λ number. ok tt;
  generate_hardware_key = ok "key";
}

abbrev fresh : World
fresh = record { sent = []; drawn = 0; key_calls = [] }

-- The attestation "wia" is in the store, and a PID.
abbrev app : Option (Option String × Bool) → App
app memory = record {
  store = record initial {
    attestation = record initial.attestation { attestation = some "wia" };
    pid = record initial.pid {
      pid = some (record { credential = "pid"; parsed_credential = []; key_tag = "pid" });
    };
  };
  memory = memory;
  world = fresh;
}

ensure_attestation-remembered_example :
    ensure_attestation toolkit host generated native android vars 100000
      (app (some (some "wia", false)))
    ≡ (ok "wia", app (some (some "wia", false)))
ensure_attestation-remembered_example =
    ensure_attestation-remembered toolkit serialize toolkit-IsToolkit host generated native android
      vars 100000 (app (some (some "wia", false))) "wia" refl refl refl

get_credential_thunk-IsStored_example :
    IsStored toolkit host generated native android vars 8000 "https://issuer" mdl
      (app (some (some "wia", false)))
      (toolkit.dispatch_thunk get_credential mdl
        (get_credential_thunk toolkit host generated native android vars 8000 mdl)
        (app (some (some "wia", false))))
    ⊎ IsFailed mdl (app (some (some "wia", false))) (
        toolkit.dispatch_thunk get_credential mdl
          (get_credential_thunk toolkit host generated native android vars 8000 mdl)
          (app (some (some "wia", false))))
get_credential_thunk-IsStored_example =
    get_credential_thunk-IsStored toolkit serialize toolkit-IsToolkit host generated native android
      vars 8000 mdl (app (some (some "wia", false)))

abbrev wia : WalletInstanceAttestationJwt
wia = record {
  header = record {
    alg = "ES256";
    kid = "k";
    typ = "wallet-attestation+jwt";
    x5c = none;
    trust_chain = none;
  };
  payload = record { iss = "provider"; iat = 1; exp = 9; cnf_jwk = key_of "k"; cnf_kid = "k" };
  sub = "wallet";
  aal = "aal";
  authorization_endpoint = "eudiw:";
  response_types_supported = [];
  vp_formats_supported = record { vc_sd_jwt = none; vp_sd_jwt = none };
  request_object_signing_alg_values_supported = [];
  presentation_definition_uri_supported = true;
}

has_wia : Wallet.decode host "wia" ≡ ok wia
unfolding Wallet.decode Wallet.parse_wallet_instance_attestation parse_jwk parse_unix_time prop
has_wia = refl

-- The store has no key tag of an instance, so the renewal fails.
no_renewal :
    (get_attestation_thunk toolkit host generated native android vars 100000
      (dispatched (get_attestation (pending tt)) (app (some (some "wia", true))))).0
    ≡ err (foreign "Integrity key not found")
unfolding get_attestation_thunk ◌>>=◌ root_reducer instance_reducer
no_renewal = refl

ensure_attestation_rejected_example :
    ((ensure_attestation toolkit host generated native android vars 100000 (app none)).0 ≡ ok "wia")
    × ((ensure_attestation toolkit host generated native android vars 100000
          (app none)).1.store.attestation.async_status
        ≡ failed (Value.string "Integrity key not found"))
ensure_attestation_rejected_example =
    ensure_attestation_rejected toolkit serialize toolkit-IsToolkit host generated native android
      vars 100000 (app none) "wia" wia refl refl refl has_wia refl no_renewal

-- The store has a key tag, and the provider answers a revocation with no body of use.
abbrev registered : App
registered = record (app none) {
  store = record (app none).store {
    instance_state = record initial.instance_state { key_tag = some "tag" };
  };
}

abbrev provider_world : World
provider_world = (Provider.revoke_wallet_instance host generated "tag" "https://wp" fresh).1

abbrev provider_answer : Result GenericErrorReason
provider_answer = (Provider.revoke_wallet_instance host generated "tag" "https://wp" fresh).0

revoke_wallet_instance_thunk-eq_example :
    toolkit.dispatch_thunk revoke_wallet_instance tt
      (revoke_wallet_instance_thunk toolkit host generated native android vars 8000)
      registered
    ≡ record registered {
      store = revoked serialize provider_answer registered.store;
      world = provider_world;
    }
revoke_wallet_instance_thunk-eq_example =
    revoke_wallet_instance_thunk-eq toolkit serialize toolkit-IsToolkit host generated native
      android vars 8000 registered "tag" provider_answer provider_world refl refl refl
