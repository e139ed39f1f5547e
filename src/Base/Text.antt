-- ===== src/Base/Text.antt =====
-- The string methods that the source uses: `split` and `join` at one character, the last
-- character, `includes`, and the text of a number.
pub mod Split
use Prim.Native.Nat.{ℕ, zero, suc, ◌/◌, ◌%◌}
use Prim.Native.Char.{Char, code}
use Prim.Native.String
use Prim.Native.String.{String, [], ◌∷◌}
use mathlib.Core.Path.{◌≡◌}
use mathlib.Core.Bool.{Bool, true, false, ◌||◌}
use mathlib.Core.List.{List, [], ◌∷◌}
use native.Mathlib.Omega.{arith}
use text.Mathlib.Text.{◌==◌, starts_with}
use text.Mathlib.TextEquality.{Char-path}
use io_react_native_wallet_i.Base.Tests.{if◌then◌else◌, same_number}

infixr 65 ◌<>◌
abbrev pub ◌<>◌ : String → String → String
s <> t = String.◌++◌ s t

-- `c === sep`
abbrev pub same_char : Char → Char → Bool
same_char c sep = same_number (code c) (code sep)

pub same_char→eq : (c sep : Char) → same_char c sep ≡ true → c ≡ sep
same_char→eq c sep h = Char-path c sep (ground arith)

pub same_char_self : (c : Char) → same_char c c ≡ true
same_char_self c = ground arith

-- The first part of a list of parts gets one more character.
abbrev pub on_head : Char → List String → List String
on_head c [] = (c ∷ []) ∷ []
on_head c (p ∷ ps) = (c ∷ p) ∷ ps

-- `s.split(sep)`, for a separator of one character.
unfoldable pub split : Char → String → List String
split sep [] = "" ∷ []
split sep (c ∷ s) = let rest = split sep s in if same_char c sep then "" ∷ rest else on_head c rest

-- `parts.join(sep)`
unfoldable pub join : String → List String → String
join sep [] = ""
join sep (p ∷ []) = p
join sep (p ∷ (q ∷ ps)) = p <> (sep <> join sep (q ∷ ps))

-- `s.slice(-1) === c`
unfoldable pub ends_with : Char → String → Bool
ends_with c [] = false
ends_with c (d ∷ []) = same_char d c
ends_with c (d ∷ (e ∷ s)) = ends_with c (e ∷ s)

-- `s.slice(0, -1)`
unfoldable pub drop_last : String → String
drop_last [] = ""
drop_last (d ∷ []) = ""
drop_last (d ∷ (e ∷ s)) = d ∷ drop_last (e ∷ s)

-- `s.slice(0, s.indexOf(c))`, where `c` occurs in `s`.
unfoldable pub before : Char → String → String
before c [] = ""
before c (d ∷ s) = let rest = before c s in if same_char d c then "" else d ∷ rest

-- `s.indexOf(c) !== -1`
unfoldable pub has_char : Char → String → Bool
has_char c [] = false
has_char c (d ∷ s) = same_char d c || has_char c s

-- `s.includes(t)`
unfoldable pub includes : String → String → Bool
includes [] t = t == ""
includes (c ∷ s) t = starts_with (c ∷ s) t || includes s t

digit : ℕ → String
digit zero = "0"
digit (suc zero) = "1"
digit (suc (suc zero)) = "2"
digit (suc (suc (suc zero))) = "3"
digit (suc (suc (suc (suc zero)))) = "4"
digit (suc (suc (suc (suc (suc zero))))) = "5"
digit (suc (suc (suc (suc (suc (suc zero)))))) = "6"
digit (suc (suc (suc (suc (suc (suc (suc zero))))))) = "7"
digit (suc (suc (suc (suc (suc (suc (suc (suc zero)))))))) = "8"
digit _ = "9"

-- The decimal digits of `n` in front of `acc`; `n + 1` rounds are enough, since each divides by ten.
show_digits : ℕ → ℕ → String → String
show_digits zero n acc = acc
show_digits (suc fuel) n acc =
    let longer = digit (n % 10) <> acc in
    let rest = show_digits fuel (n / 10) longer in if same_number (n / 10) 0 then longer else rest

-- `${n}`, for a natural number.
unfoldable pub show : ℕ → String
unfolding show_digits digit
show n = show_digits (suc n) n ""
