-- ===== src/Obfuscate/Positions.antt =====
-- Which characters `obfuscateString` replaces.
use Prim.Native.Nat.{ℕ, zero, suc, ◌*◌, ◌/◌}
use Prim.Native.Char.{Char}
use Prim.Native.String.{String, [], ◌∷◌}
use mathlib.Core.List.{List, [], ◌∷◌}
use io_react_native_wallet_i.Base.{
  ◌≡◌, ◌≤◌, Option, none, some, length, get_elem?, join, leb, same_number, if◌then◌else◌,
}
use io_react_native_wallet_i.Obfuscate.{characters}

-- How often a position is among others.
abbrev pub times : ℕ → List ℕ → ℕ
times i [] = 0
times i (p ∷ ps) = if same_number p i then suc (times i ps) else times i ps

abbrev pub replaced : ℕ → String → Option String → Option String
replaced n c none = none
replaced zero c (some x) = some x
replaced (suc n) c (some x) = some c

-- Distinct positions of the text, as many as the percentage says, were replaced, and nothing else.
pub record IsObfuscated (value : String) (percentage : ℕ) (c out : String) : Type 0 where
  pub positions : List ℕ
  pub parts : List String
  pub count :
      length positions
      ≡ (length (characters value) * (if leb percentage 100 then percentage else 100)) / 100
  pub distinct : (i : ℕ) → times i positions ≤ 1
  pub within : (i : ℕ) → length (characters value) ≤ i → times i positions ≡ 0
  pub at_each :
      (i : ℕ) → get_elem? parts i ≡ replaced (times i positions) c (get_elem? (characters value) i)
  pub joined : out ≡ join "" parts
