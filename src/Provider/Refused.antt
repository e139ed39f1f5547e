-- ===== src/Provider/Refused.antt =====
-- `getAttestation` of src/wallet-instance-attestation/issuing.ts, when the provider refuses.
use io_react_native_wallet_i.Base.{◌≡◌, String, Option, none, some, ◌<>◌}
use io_react_native_wallet_i.Value.{Value}
use io_react_native_wallet_i.Host.{Host, Request}
use io_react_native_wallet_i.Provider.{
  Generated, Fetcher, EndpointParameters, client_request, token_parameters,
}

-- The generated client calls its fetcher with the url below its base url.
abbrev pub CallsBelow : Generated → Type 0
CallsBelow G =
    (fetcher : Fetcher) (base_url method path : String) (params : Option EndpointParameters)
    → G.create_api_client fetcher base_url method path params
      ≡ fetcher method (base_url <> path) params

module _ (H : Host) (G : Generated) where
  abbrev pub nonce_request : String → Request
  nonce_request base_url = client_request H G "get" (base_url <> "/nonce") none

  abbrev pub token_request : String → String → Request
  token_request base_url assertion =
      client_request H G "post" (base_url <> "/token") (some (token_parameters H G assertion))
