-- ===== src/Obfuscate.antt =====
-- `obfuscateString` of src/utils/string.ts. `order` is the order that sorting by a random comparison
-- gives to the positions. A text is taken apart by its code points, which are its UTF-16 units unless
-- it has characters beyond the basic plane.
pub mod Positions
use Prim.Native.Nat.{ℕ, zero, suc, ◌*◌, ◌/◌}
use Prim.Native.String.{String, [], ◌∷◌}
use mathlib.Core.List.{List, [], ◌∷◌}
use native.Mathlib.Nat.{mul-le-mul_left}
use io_react_native_wallet_i.Base.{
  ◌≡◌, refl, ◌∙◌, ap, ◌≤◌, Bool, false, Option, none, some, ◌==◌, ◌||◌, length, get_elem?, join,
  leb, same_number, if◌then◌else◌, arith,
}

-- `s.split("")`
unfoldable pub characters : String → List String
characters [] = []
characters (c ∷ s) = (c ∷ []) ∷ characters s

-- `Array.from({ length }, (_, i) => i)`, from `i` on.
unfoldable pub positions_from : ℕ → ℕ → List ℕ
positions_from i zero = []
positions_from i (suc n) = i ∷ positions_from (suc i) n

-- `xs.slice(0, n)`
unfoldable pub take {ℓ} : {A : Type ℓ} → ℕ → List A → List A
take zero xs = []
take (suc n) [] = []
take (suc n) (x ∷ xs) = x ∷ take n xs

-- `chars[pos] = c`. Past the end the array grows, and a hole is joined as the empty text.
unfoldable pub set_at : ℕ → String → List String → List String
set_at zero c [] = c ∷ []
set_at (suc pos) c [] = "" ∷ set_at pos c []
set_at zero c (x ∷ xs) = c ∷ xs
set_at (suc pos) c (x ∷ xs) = x ∷ set_at pos c xs

unfoldable pub set_all : List ℕ → String → List String → List String
set_all [] c chars = chars
set_all (pos ∷ positions) c chars = set_all positions c (set_at pos c chars)

abbrev pub at_most : ℕ → ℕ → ℕ
at_most bound n = if leb n bound then n else bound

abbrev pub chars_to_obfuscate : String → ℕ → ℕ
chars_to_obfuscate value percentage = (length (characters value) * at_most 100 percentage) / 100

abbrev pub chosen : (List ℕ → List ℕ) → String → ℕ → List ℕ
chosen order value percentage =
    take (chars_to_obfuscate value percentage)
      (order (positions_from 0 (length (characters value))))

abbrev pub obfuscated : (List ℕ → List ℕ) → String → ℕ → String → List String
obfuscated order value percentage obfuscated_char =
    set_all (chosen order value percentage) obfuscated_char (characters value)

unfoldable pub obfuscate_string : (List ℕ → List ℕ) → String → ℕ → String → String
obfuscate_string order value percentage obfuscated_char =
    if value == "" then "" else join "" (obfuscated order value percentage obfuscated_char)
