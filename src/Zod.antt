-- ===== src/Zod.antt =====
-- The schema library (zod) as an interface: the combinators that the source's schemas are made of,
-- each as a parser from a value, with `none` where parsing fails. The schemas themselves are the
-- `parse_…` definitions of the other modules.
use io_react_native_wallet_i.Base.{ℕ, String, Bool, Option, none, some, List, ◌≡◌}
use io_react_native_wallet_i.Base.Dict.{Dict}
use io_react_native_wallet_i.Value.{Value}
use io_react_native_wallet_i.Errors.{foreign}
use io_react_native_wallet_i.Errors.Result.{Result, from_option}

abbrev pub Schema : Type 0 → Type 0
Schema A = Value → Option A

pub record Zod : Type 1 where
  pub string : Schema String
  pub number : Schema ℕ
  pub boolean : Schema Bool
  -- The value is an object; its fields are read by `prop`.
  pub object : Schema Value
  pub literal : String → Schema String
  pub min : ℕ → Schema ℕ → Schema ℕ
  pub max : ℕ → Schema ℕ → Schema ℕ
  pub array : {A : Type 0} → Schema A → Schema (List A)
  pub record_of : {A : Type 0} → Schema A → Schema (Dict A)
  pub tuple3 : {A B C : Type 0} → Schema A → Schema B → Schema C → Schema (A × B × C)
  pub optional : {A : Type 0} → Schema A → Schema (Option A)
  pub union : {A : Type 0} → Schema A → Schema A → Schema A
  -- `error.message` of a failed parse, by the name of the schema.
  pub error_message : String → Value → String

-- What the library documents of these combinators, as far as a theorem uses it.
pub record IsDocumented (z : Zod) : Type 0 where
  pub literal_sound : (s t : String) (v : Value) → z.literal s v ≡ some t → t ≡ s

infixl 5 ◌>>=◌
abbrev pub ◌>>=◌ {ℓ κ} : {A : Type ℓ} {B : Type κ} → Option A → (A → Option B) → Option B
none >>= f = none
some a >>= f = f a

-- `schema.parse(v)`: a failure throws the library's error.
abbrev pub parse : Zod → {A : Type 0} → String → Schema A → Value → Result A
parse z name schema v = from_option (schema v) (foreign (z.error_message name v))
