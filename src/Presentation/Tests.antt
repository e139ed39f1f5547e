-- ===== src/Presentation/Tests.antt =====
-- A relying party with one key, and a token for it.
use io_react_native_wallet_i.Base.{◌≡◌, ◌↔◌, String, none, [], ◌∷◌}
use io_react_native_wallet_i.Value.{Value, obj}
use io_react_native_wallet_i.Host.{Host}
use io_react_native_wallet_i.Errors.Result.{ok}
use io_react_native_wallet_i.Sample.{table_host, key_of}
use io_react_native_wallet_i.Trust.Types.{RelyingPartyMetadata}
use io_react_native_wallet_i.Presentation.{RequestObject, authenticate}
use io_react_native_wallet_i.Presentation.Authentic.{IsAuthentic, authenticate_iff}

abbrev text : String → Value
text s = Value.string s

abbrev host : Host
host =
    table_host
      ((
        "token",
        record {
          protected_header = obj (("kid", text "k") ∷ []);
          payload = obj (
              ("iss", text "rp")
              ∷ ("iat", Value.number 1)
              ∷ ("exp", Value.number 2)
              ∷ ("state", text "state")
              ∷ ("nonce", text "nonce")
              ∷ ("response_uri", text "uri")
              ∷ ("response_type", text "vp_token")
              ∷ ("response_mode", text "direct_post.jwt")
              ∷ ("client_id", text "rp")
              ∷ ("client_id_scheme", text "entity_id")
              ∷ ("scope", text "pid")
              ∷ []);
        },
      )
        ∷ [])
      [] []

abbrev rp : RelyingPartyMetadata
rp = record {
  application_type = none;
  client_id = none;
  client_name = none;
  jwks = key_of "j" ∷ key_of "k" ∷ [];
  contacts = none;
}

abbrev request : RequestObject
request = record {
  iss = "rp";
  iat = 1;
  exp = 2;
  state = "state";
  nonce = "nonce";
  response_uri = "uri";
  client_id = "rp";
  scope = "pid";
}

authenticate_iff_example :
    (authenticate host rp "token" ≡ ok request) ↔ IsAuthentic host rp "token" request
authenticate_iff_example = authenticate_iff host rp "token" request
