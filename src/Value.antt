-- ===== src/Value.antt =====
-- The JavaScript values that cross the program's borders: parsed JSON, token headers and payloads.
-- Numbers are natural numbers; negative and fractional ones are left out.
use io_react_native_wallet_i.Base.{
  ℕ, String, Bool, true, false, not, Option, none, some, List, [], ◌∷◌,
}
use io_react_native_wallet_i.Base.{◌==◌, if◌then◌else◌, same_number}
use io_react_native_wallet_i.Base.Dict.{Dict}

mutual
  pub data Value : Type 0 where
    undefined : Value
    null : Value
    boolean : Bool → Value
    number : ℕ → Value
    string : String → Value
    array : Items → Value
    object : Fields → Value

  pub data Items : Type 0 where
    nil : Items
    cons : Value → Items → Items

  pub data Fields : Type 0 where
    end : Fields
    field : String → Value → Fields → Fields

abbrev pub to_items : List Value → Items
to_items [] = nil
to_items (v ∷ vs) = cons v (to_items vs)

abbrev pub to_fields : Dict Value → Fields
to_fields [] = end
to_fields ((k, v) ∷ d) = field k v (to_fields d)

abbrev pub from_fields : Fields → Dict Value
from_fields end = []
from_fields (field k v fs) = (k, v) ∷ from_fields fs

abbrev pub from_items : Items → List Value
from_items nil = []
from_items (cons v vs) = v ∷ from_items vs

-- `{ k: v, ... }` and `[v, ...]`
abbrev pub obj : Dict Value → Value
obj d = object (to_fields d)

abbrev pub arr : List Value → Value
arr vs = array (to_items vs)

unfoldable pub field_of : String → Fields → Value
field_of k end = undefined
field_of k (field j v fs) = if j == k then v else field_of k fs

-- `v[k]`, for a value that is no `null` or `undefined`.
unfoldable pub prop : String → Value → Value
unfolding field_of
prop k (object fs) = field_of k fs
prop k _ = undefined

-- What `if (v)` tests.
unfoldable pub truthy : Value → Bool
truthy undefined = false
truthy null = false
truthy (boolean b) = b
truthy (number n) = not (same_number n 0)
truthy (string s) = not (s == "")
truthy _ = true

-- A string property that may be missing.
abbrev pub maybe_string : Option String → Value
maybe_string none = undefined
maybe_string (some s) = string s

abbrev pub strings : List String → List Value
strings [] = []
strings (s ∷ ss) = string s ∷ strings ss

abbrev pub maybe_strings : Option (List String) → Value
maybe_strings none = undefined
maybe_strings (some ss) = arr (strings ss)
