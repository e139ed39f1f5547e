-- ===== src/Host.antt =====
-- What the program uses and does not implement, as one record of parameters: the JWT and crypto
-- libraries (@pagopa/io-react-native-jwt, @pagopa/io-react-native-crypto), js-base64, js-sha256, parse-url,
-- uuid, zod, the URL classes, JSON and the random source of the platform, and `fetch`.
use io_react_native_wallet_i.Base.{ℕ, String, Bool, Option, List}
use io_react_native_wallet_i.Base.Dict.{Dict}
use io_react_native_wallet_i.Value.{Value}
use io_react_native_wallet_i.Errors.Result.{Result}
use io_react_native_wallet_i.Jwk.{Jwk}
use io_react_native_wallet_i.Zod.{Zod}

-- A `CryptoContext`: the two calls that a key bound to the device answers.
pub record CryptoContext : Type 0 where
  pub get_public_key : Result Jwk
  pub get_signature : String → Result String

-- `JWTDecodeResult`
pub record DecodedJwt : Type 0 where
  pub protected_header : Value
  pub payload : Value

-- The second argument of `verify`: `JWK | JWK[]`.
pub data PublicKeys : Type 0 where
  one_key : Jwk → PublicKeys
  key_set : List Jwk → PublicKeys

-- What the setters of `SignJWT` collect before `sign`.
pub record JwtToSign : Type 0 where
  pub payload : Dict Value
  pub protected_header : Dict Value
  pub audience : Option String
  pub issuer : Option String
  pub issued_at : Bool
  pub expiration_time : Option Value

pub record Request : Type 0 where
  pub url : String
  pub method : String
  pub headers : Dict String
  pub body : Option String

pub record Response : Type 0 where
  pub status : ℕ
  pub url : String
  pub content_type : Option String
  pub text : String

-- The parts of a parsed `URL`.
pub record Url : Type 0 where
  pub protocol : String
  pub origin : String
  pub hostname : String
  pub search_params : String → Option String
  pub href : String

-- A call on the key store of the device.
pub data KeyCall : Type 0 where
  generate delete : String → KeyCall

-- The header that `EncryptJwe` takes.
pub record JweHeader : Type 0 where
  pub alg : String
  pub enc : String
  pub kid : Option String

pub record Host : Type 1 where
  pub zod : Zod
  pub json_parse : String → Result Value
  pub json_stringify : Value → String
  -- `${value}`
  pub to_text : Value → String
  pub base64_decode : String → Result String
  pub remove_padding : String → String
  pub jwt_decode : String → Result DecodedJwt
  pub jwt_verify : String → PublicKeys → Result DecodedJwt
  pub jwt_sign : CryptoContext → JwtToSign → Result String
  pub sha256_to_base64 : String → String
  pub sha256 : String → String
  pub thumbprint : Jwk → Result String
  pub parse_url : String → Result Url
  -- `new URLSearchParams(fields).toString()`
  pub search_params : Dict String → String
  -- The n-th draw of `uuidv4()`, and of `Math.random()` scaled to a bound.
  pub uuid : ℕ → String
  pub random_below : ℕ → ℕ → ℕ
  pub encode_base64 : String → String
  pub decode_base64 : String → Result String
  pub encrypt_jwe : JweHeader → String → Jwk → Result String
  -- `parseUrl(url).query`, of the package parse-url.
  pub url_query : String → Result Value
  -- What the key store answers to a call, and the public key of a tag, after the calls before.
  pub change_keys : List KeyCall → KeyCall → Result (Unit {0})
  pub public_key : List KeyCall → String → Result Jwk
  pub sign_with_key : List KeyCall → String → String → Result String
  -- The answer to a request, after the requests sent before it, newest first.
  pub fetch : List Request → Request → Result Response
