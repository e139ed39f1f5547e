-- ===== src/Sample.antt =====
-- Concrete parameters for the tests: schema combinators over plain values, and a host that knows a
-- handful of tokens and texts.
use io_react_native_wallet_i.Base.{
  true, ℕ, String, Bool, Option, none, some, List, [], ◌∷◌, ◌==◌, ◌<>◌, if◌then◌else◌, leb, or_else,
}
use io_react_native_wallet_i.Base.Dict.{Dict}
use io_react_native_wallet_i.Value.{Value, Items, nil, cons, obj, arr, from_items, from_fields}
use io_react_native_wallet_i.Zod.{Zod, Schema, ◌>>=◌}
use io_react_native_wallet_i.Jwk.{Jwk}
use io_react_native_wallet_i.Errors.{foreign}
use io_react_native_wallet_i.Errors.Result.{Result, ok, err}
use io_react_native_wallet_i.Host.{Host, DecodedJwt, Response}

abbrev as_string : Value → Option String
as_string (Value.string s) = some s
as_string _ = none

abbrev as_number : Value → Option ℕ
as_number (Value.number n) = some n
as_number _ = none

abbrev as_boolean : Value → Option Bool
as_boolean (Value.boolean b) = some b
as_boolean _ = none

abbrev as_object : Value → Option Value
as_object (Value.object fs) = some (Value.object fs)
as_object _ = none

abbrev each : {A : Type 0} → Schema A → List Value → Option (List A)
each p [] = some []
each p (v ∷ vs) = p v >>= λ a. each p vs >>= λ rest. some (a ∷ rest)

abbrev each_field : {A : Type 0} → Schema A → Dict Value → Option (Dict A)
each_field p [] = some []
each_field p ((k, v) ∷ vs) = p v >>= λ a. each_field p vs >>= λ rest. some ((k, a) ∷ rest)

abbrev as_array : {A : Type 0} → Schema A → Schema (List A)
as_array p (Value.array vs) = each p (from_items vs)
as_array p _ = none

abbrev as_record : {A : Type 0} → Schema A → Schema (Dict A)
as_record p (Value.object fs) = each_field p (from_fields fs)
as_record p _ = none

abbrev as_optional : {A : Type 0} → Schema A → Schema (Option A)
as_optional p Value.undefined = some none
as_optional p v = p v >>= λ a. some (some a)

abbrev three : {A B C : Type 0} → Schema A → Schema B → Schema C → Items → Option (A × B × C)
three p q r (cons u (cons v (cons w nil))) = p u >>= λ a. q v >>= λ b. r w >>= λ c. some (a, b, c)
three p q r _ = none

abbrev as_tuple3 : {A B C : Type 0} → Schema A → Schema B → Schema C → Schema (A × B × C)
as_tuple3 p q r (Value.array vs) = three p q r vs
as_tuple3 p q r _ = none

abbrev pub plain_zod : Zod
plain_zod = record {
  string = as_string;
  number = as_number;
  boolean = as_boolean;
  object = as_object;
  literal = λ s v. as_string v >>= λ t. if t == s then some t else none;
  min = λ low p v. p v >>= λ n. if leb low n then some n else none;
  max = λ high p v. p v >>= λ n. if leb n high then some n else none;
  array = as_array;
  record_of = as_record;
  tuple3 = as_tuple3;
  optional = as_optional;
  union = λ p q v. or_else (p v) (q v);
  error_message = λ name v. "invalid " <> name;
}

abbrev pub key_of : String → Jwk
key_of kid = record {
  alg = none;
  crv = none;
  d = none;
  dp = none;
  dq = none;
  e = none;
  ext = none;
  k = none;
  key_ops = none;
  kid = some kid;
  kty = "EC";
  n = none;
  p = none;
  q = none;
  qi = none;
  usage = none;
  x = none;
  y = none;
  x5c = none;
  x5t = none;
  x5t_s256 = none;
  x5u = none;
}

abbrev pub key_value : String → Value
key_value kid = obj (("kid", Value.string kid) ∷ ("kty", Value.string "EC") ∷ [])

abbrev pub keys_value : String → Value
keys_value kid = obj (("keys", arr (key_value kid ∷ [])) ∷ [])

-- A token library that looks tokens up in a table.
abbrev look_up : {A : Type 0} → Dict A → String → Result A
look_up [] token = err (foreign "unknown text")
look_up ((t, v) ∷ table) token = if t == token then ok v else look_up table token

-- A host over tables of tokens, JSON texts and responses by url. Every known token has a valid
-- signature.
abbrev pub table_host : Dict DecodedJwt → Dict Value → Dict Response → Host
table_host tokens texts responses = record {
  zod = plain_zod;
  json_parse = look_up texts;
  json_stringify = λ v. "json";
  to_text = λ v. "value";
  base64_decode = λ s. ok s;
  remove_padding = λ s. s;
  jwt_decode = look_up tokens;
  jwt_verify = λ token keys. look_up tokens token;
  jwt_sign = λ ctx jwt. ok "signed";
  sha256_to_base64 = λ s. "#" <> s;
  sha256 = λ s. "##" <> s;
  thumbprint = λ key. elim key.kid [ none ↦ err (foreign "no thumbprint") | some kid ↦ ok kid ];
  parse_url = λ s. ok (record {
    protocol = "https:";
    origin = s;
    hostname = s;
    search_params = λ k. none;
    href = s;
  });
  search_params = λ d. "params";
  uuid = λ n. "uuid";
  random_below = λ bound n. 0;
  encode_base64 = λ s. s;
  decode_base64 = λ s. ok s;
  encrypt_jwe = λ header text key. ok "encrypted";
  url_query = λ url. look_up texts url;
  change_keys = λ calls call. ok tt;
  public_key = λ calls tag. ok (key_of tag);
  sign_with_key = λ calls value tag. ok "signature";
  fetch = λ sent request. look_up responses request.url;
}

abbrev text : String → Value
text s = Value.string s

-- A wallet instance attestation for the key "k".
abbrev pub attestation : DecodedJwt
attestation = record {
  protected_header =
      obj (("alg", text "ES256") ∷ ("kid", text "k") ∷ ("typ", text "wallet-attestation+jwt") ∷ []);
  payload = obj (
      ("iss", text "provider")
      ∷ ("iat", Value.number 1)
      ∷ ("exp", Value.number 9)
      ∷ ("cnf", obj (("jwk", key_value "k") ∷ []))
      ∷ ("sub", text "wallet")
      ∷ ("aal", text "aal")
      ∷ ("authorization_endpoint", text "eudiw:")
      ∷ ("response_types_supported", arr [])
      ∷ ("vp_formats_supported", obj [])
      ∷ ("request_object_signing_alg_values_supported", arr [])
      ∷ ("presentation_definition_uri_supported", Value.boolean true)
      ∷ []);
}
