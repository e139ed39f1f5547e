-- ===== src/FormPost.antt =====
-- `getJwtFromFormPost` of src/utils/decoder.ts, with its two regular expressions.
pub mod Page
use Prim.Native.Nat.{ℕ, ◌+◌}
use Prim.Native.Char.{Char, code}
use Prim.Native.String.{String, [], ◌∷◌}
use io_react_native_wallet_i.Base.{
  Bool, Option, none, some, ◌==◌, ◌<>◌, ◌||◌, ◌&&◌, or_else, leb, same_number, if◌then◌else◌,
}
use io_react_native_wallet_i.Host.{Host, DecodedJwt}
use io_react_native_wallet_i.Errors.{new_validation_failed}
use io_react_native_wallet_i.Errors.Result.{Result, ok, err, ◌>>=◌}

-- The flag `i`: letters of the basic alphabet are the same in both cases.
abbrev pub lower : ℕ → ℕ
lower n = if leb 65 n && leb n 90 then n + 32 else n

abbrev pub same_letter : Char → Char → Bool
same_letter c d = same_number (lower (code c)) (lower (code d))

-- What follows a literal piece of the pattern at the head of a text.
unfoldable pub after_literal : String → String → Option String
after_literal [] s = some s
after_literal (c ∷ lit) [] = none
after_literal (c ∷ lit) (d ∷ s) =
    let rest = after_literal lit s in if same_letter c d then rest else none

-- `([^"]*)"`: the text up to the first quote, if there is one.
unfoldable pub up_to_quote : String → Option String
up_to_quote [] = none
up_to_quote (c ∷ s) =
    let rest = up_to_quote s in
    if same_number (code c) 34 then some "" else elim rest [ none ↦ none | some t ↦ some (c ∷ t) ]

-- `[^>]*` in front of the rest of a pattern: the longest stretch for which the rest matches.
unfoldable pub greedy : (String → Option String) → String → Option String
greedy rest [] = rest []
greedy rest (c ∷ s) =
    let longer = greedy rest s in
    if same_number (code c) 62 then rest (c ∷ s) else or_else longer (rest (c ∷ s))

abbrev pub bind_option : Option String → (String → Option String) → Option String
bind_option none f = none
bind_option (some s) f = f s

-- `value="([^"]*)"`
unfoldable pub match_value : String → Option String
match_value s = bind_option (after_literal "value=\"" s) up_to_quote

-- `name="response"[^>]*value="([^"]*)"`
unfoldable pub match_name : String → Option String
match_name s = bind_option (after_literal "name=\"response\"" s) (greedy match_value)

unfoldable pub match_here : String → Option String
match_here s = bind_option (after_literal "<input" s) (greedy match_name)

-- `formPostRegex.exec(formData)?.[1]`: the first place where the pattern matches.
unfoldable pub form_post_match : String → Option String
form_post_match [] = match_here []
form_post_match (c ∷ s) = or_else (match_here (c ∷ s)) (form_post_match s)

-- `\s`
abbrev pub is_space : Char → Bool
is_space c =
    let n = code c in
    (leb 9 n && leb n 13)
    || (same_number n 32
        || (same_number n 160
            || (same_number n 5760
                || ((leb 8192 n && leb n 8202)
                    || (same_number n 8232
                        || (same_number n 8233
                            || (same_number n 8239
                                || (same_number n 8287
                                    || (same_number n 12288 || same_number n 65279)))))))))

-- `s.replace(/\r\n|\n\r|\n|\r|\s+/g, "")`
unfoldable pub without_spaces : String → String
without_spaces [] = ""
without_spaces (c ∷ s) = if is_space c then without_spaces s else c ∷ without_spaces s

pub record FormPostJwt : Type 0 where
  pub jwt : String
  pub decoded_jwt : DecodedJwt

abbrev pub found_response : Option String → Option String
found_response none = none
found_response (some s) = if s == "" then none else some s

module _ (H : Host) where
  unfoldable pub get_jwt_from_form_post : String → Result FormPostJwt
  get_jwt_from_form_post form_data = elim (found_response (form_post_match form_data)) [
    | none ↦ err (
        new_validation_failed H.json_stringify
          ("Unable to obtain JWT from form_post.jwt. Form data: " <> form_data) "unspecified"
          "unspecified")
    | some response ↦ H.jwt_decode (without_spaces response) >>= λ decoded.
        ok (record { jwt = without_spaces response; decoded_jwt = decoded })
  ]
