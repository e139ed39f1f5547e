-- ===== src/Http.antt =====
-- The response helpers of src/utils/misc.ts: the status check and the raw body.
pub mod Checked
pub mod Answered
use io_react_native_wallet_i.Base.{
  ℕ, String, Bool, false, Option, none, some, ◌<>◌, includes, same_number, show, if◌then◌else◌,
}
use io_react_native_wallet_i.Value.{Value, prop, undefined, null}
use io_react_native_wallet_i.Errors.{
  Error, GenericErrorReason, text, json, foreign, unexpected_status_code_error, new_failure,
}
use io_react_native_wallet_i.Errors.Builder.{new_issuer_response_error}
use io_react_native_wallet_i.Errors.Result.{Result, ok, err, ◌>>=◌}
use io_react_native_wallet_i.Host.{Host, Response}

-- A JSON text that is a string is a string to `typeof`.
abbrev pub body_reason : Value → GenericErrorReason
body_reason (Value.string s) = text s
body_reason v = json v

abbrev pub is_json : Option String → Bool
is_json none = false
is_json (some content_type) = includes content_type "application/json"

-- A class of errors that `hasStatusOrThrow` may construct, without a code of its own.
abbrev pub ErrorMaker : Type 0
ErrorMaker = String → GenericErrorReason → ℕ → Error

-- `v[k]`, which throws where `v` is `null` or `undefined`.
unfoldable pub member : String → Value → Result Value
member k undefined = err (foreign ("Cannot read properties of undefined (reading '" <> (k <> "')")))
member k null = err (foreign ("Cannot read properties of null (reading '" <> (k <> "')")))
member k v = ok (prop k v)

module _ (H : Host) where
  abbrev pub unexpected_status : ErrorMaker
  unexpected_status message reason status =
      unexpected_status_code_error (new_failure H.json_stringify message reason status)

  abbrev pub issuer_response : ErrorMaker
  issuer_response message reason status =
      new_issuer_response_error H.json_stringify none message reason status

  -- `res.json()`
  abbrev pub body_json : Response → Result Value
  body_json res = H.json_parse res.text

  unfoldable pub parse_raw_http_response : Response → Result GenericErrorReason
  parse_raw_http_response res =
      if is_json res.content_type
      then (body_json res >>= λ v. ok (body_reason v))
      else ok (text res.text)

  abbrev pub status_message : ℕ → Response → String
  status_message status res =
      "Http request failed. Expected "
      <> (show status <> (", got " <> (show res.status <> (", url: " <> res.url))))

  -- `make` is the default class or the custom one.
  unfoldable pub has_status_or_throw : ℕ → ErrorMaker → Response → Result Response
  unfolding parse_raw_http_response
  has_status_or_throw status make res =
      if same_number res.status status
      then ok res
      else (parse_raw_http_response res >>= λ reason.
          err (make (status_message status res) reason res.status))

-- `value ?? null`
abbrev or_null : Value → Value
or_null Value.undefined = Value.null
or_null v = v

-- `with_default` is undefined where the caller gives none.
unfoldable pub safe_json_parse : Host → String → (with_default : Value) → Value
safe_json_parse H body with_default = elim (H.json_parse body) [
  | ok v ↦ v
  | err e ↦ or_null with_default
]
