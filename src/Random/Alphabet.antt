-- ===== src/Random/Alphabet.antt =====
-- What `generateRandomAlphaNumericString` of src/utils/misc.ts returns: its length and characters.
use Prim.Native.Char.{Char}
use Prim.Native.String.{String, [], ◌∷◌}
use text.Mathlib.TextLemmas.{nil-append, cons-append}
use io_react_native_wallet_i.Base.{
  ◌≡◌, refl, ap, ◌∙◌, ℕ, zero, suc, ◌+◌, ◌<◌, true, arith, has_char, same_char_self, ◌<>◌,
}
use io_react_native_wallet_i.Host.{Host}
use io_react_native_wallet_i.Promise.{World, draw_below, pure, >>=-of_returned}
use io_react_native_wallet_i.Errors.Result.{ok}
use io_react_native_wallet_i.Random.{
  char_at, alphabet, to_base36, generate_random_alpha_numeric_string,
}

-- A text of `size` characters, each a digit or a small letter.
abbrev pub IsAlphanumeric : ℕ → String → Type 0
IsAlphanumeric zero [] = Unit
IsAlphanumeric zero (c ∷ s) = ⊥
IsAlphanumeric (suc size) [] = ⊥
IsAlphanumeric (suc size) (c ∷ s) = (has_char c alphabet ≡ true) × IsAlphanumeric size s

count_chars : String → ℕ
count_chars [] = 0
count_chars (c ∷ s) = suc (count_chars s)

-- A place inside a text holds a character of it.
char_at-eq :
    (n : ℕ) (s : String)
    → n < count_chars s
    → (c : Char) × (char_at n s ≡ c ∷ []) × (has_char c s ≡ true)
unfolding char_at has_char count_chars
char_at-eq n [] h = absurd (omega (arith, h))
char_at-eq zero (c ∷ s) h = (c, refl, ground (arith, same_char_self c))
char_at-eq (suc n) (c ∷ s) h =
    let (d, h1, h2) = char_at-eq n s (omega arith) in (d, h1, ground (arith))

char_at-IsAlphanumeric :
    (n : ℕ) (rest : String) (size : ℕ)
    → n < 36
    → IsAlphanumeric size rest
    → IsAlphanumeric (suc size) (to_base36 n <> rest)
unfolding count_chars
char_at-IsAlphanumeric n rest size h1 h2 =
    let (c, h3, h4) = char_at-eq n alphabet h1 in rw (h3, cons-append, nil-append) (h4, h2)

module _ (H : Host) (in_bounds : (n : ℕ) → H.random_below 36 n < 36) where
  -- If the random source stays below its bound, a random text of any asked size is made, has that
  -- many characters, each one a digit or a small letter, and takes that many draws.
  pub generate_random_alpha_numeric_string-IsAlphanumeric :
      (size : ℕ) (w : World)
      → (s : String) × (generate_random_alpha_numeric_string H size w
          ≡ (ok s, record w { drawn = w.drawn + size }))
        × IsAlphanumeric size s
  unfolding generate_random_alpha_numeric_string draw_below
  generate_random_alpha_numeric_string-IsAlphanumeric zero w =
      ("", ap (λ n. (ok "", record w { drawn = n })) (omega arith), tt)
  generate_random_alpha_numeric_string-IsAlphanumeric (suc size) w =
      let w' = record w { drawn = w.drawn + 1 } in
      let (s, h1, h2) = generate_random_alpha_numeric_string-IsAlphanumeric size w' in
      (
        to_base36 (H.random_below 36 w.drawn) <> s,
        >>=-of_returned (generate_random_alpha_numeric_string H size)
              (λ rest. pure (to_base36 (H.random_below 36 w.drawn) <> rest)) w' h1
            ∙ ap (λ n. (ok (to_base36 (H.random_below 36 w.drawn) <> s), record w { drawn = n }))
                (omega arith),
        char_at-IsAlphanumeric (H.random_below 36 w.drawn) s size (in_bounds w.drawn) h2,
      )
