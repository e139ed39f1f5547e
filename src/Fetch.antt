-- ===== src/Fetch.antt =====
-- The fetch of the example app: example/src/utils/fetch.ts.
use io_react_native_wallet_i.Base.{String, Option, none, some, [], ◌∷◌, ◌==◌, ◌<>◌, if◌then◌else◌}
use io_react_native_wallet_i.Base.Dict.{Dict, spread}
use io_react_native_wallet_i.Host.{Host, Request, Response, Url}
use io_react_native_wallet_i.Errors.Result.{Result, ok, ◌>>=◌}
use io_react_native_wallet_i.Promise
use io_react_native_wallet_i.Promise.{Async, lift, send}
use io_react_native_wallet_i.Store.Root.{RootState}
use io_react_native_wallet_i.Thunks.{Environments, get_env}

abbrev pub add_auth_headers : Dict String → Request → Request
add_auth_headers auth_headers request = record request {
  headers = spread request.headers auth_headers;
}

-- `${authToken}`
abbrev pub token_text : Option String → String
token_text none = "undefined"
token_text (some token) = token

module _ (H : Host) (vars : Environments) where
  abbrev pub auth_headers : RootState → (url provider : Url) → Dict String
  auth_headers state url provider =
      if url.origin == provider.origin
      then ("Authorization", "Bearer " <> token_text state.session.io_auth_token) ∷ []
      else []

  -- What is sent for a request, whose url is a text.
  unfoldable pub app_request : RootState → Request → Result Request
  app_request state request = do
    url ← H.parse_url request.url
    provider ← H.parse_url (get_env vars state.environment.env).wallet_provider_base_url
    ok (add_auth_headers (auth_headers state url provider) request)

  unfoldable pub app_fetch : RootState → Request → Async Response
  app_fetch state request = Promise.◌>>=◌ (lift (app_request state request)) (send H)
