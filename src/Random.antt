-- ===== src/Random.antt =====
-- `generateRandomAlphaNumericString` of src/utils/misc.ts.
use Prim.Native.Nat.{ℕ, zero, suc}
use Prim.Native.String.{String, [], ◌∷◌}
use io_react_native_wallet_i.Base.{◌<>◌}
use io_react_native_wallet_i.Errors.Result.{ok}
use io_react_native_wallet_i.Host.{Host}
use io_react_native_wallet_i.Promise.{Async, ◌>>=◌, pure, draw_below}
pub mod Alphabet

-- The character at a place, as a text; no text past the end.
unfoldable pub char_at : ℕ → String → String
char_at n [] = ""
char_at zero (c ∷ s) = c ∷ []
char_at (suc n) (c ∷ s) = char_at n s

abbrev pub alphabet : String
alphabet = "0123456789abcdefghijklmnopqrstuvwxyz"

-- `n.toString(36)`, for a digit.
abbrev pub to_base36 : ℕ → String
to_base36 n = char_at n alphabet

module _ (H : Host) where
  unfoldable pub generate_random_alpha_numeric_string : ℕ → Async String
  generate_random_alpha_numeric_string zero = pure ""
  generate_random_alpha_numeric_string (suc size) = do
    digit ← draw_below H 36
    rest ← generate_random_alpha_numeric_string size
    pure (to_base36 digit <> rest)
