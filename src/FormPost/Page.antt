-- ===== src/FormPost/Page.antt =====
-- `getJwtFromFormPost` of src/utils/decoder.ts on the page of a form with a hidden response.
use Prim.Native.Char.{Char, code}
use Prim.Native.String.{String, [], ◌∷◌}
use text.Mathlib.TextLemmas.{nil-append, cons-append}
use io_react_native_wallet_i.Base.{
  if◌then◌else◌, or_else, ◌≡◌, refl, ap, sym, ◌∙◌, Bool, true, false, Option, none, some, arith,
  ◌<>◌, has_char, same_char, ◌==◌, same_number, Bool-cases, inl, inr,
}
use io_react_native_wallet_i.Host.{Host}
use io_react_native_wallet_i.Errors.Result.{◌>>=◌, ok}
use io_react_native_wallet_i.FormPost.{
  same_letter, after_literal, up_to_quote, greedy, match_value, match_name, match_here,
  form_post_match, without_spaces, get_jwt_from_form_post, bind_option,
}

-- `p + s`, by clauses on the first text.
append : String → String → String
append [] s = s
append (c ∷ p) s = c ∷ append p s

append-eq : (p s : String) → append p s ≡ p <> s
unfolding append
append-eq [] s = sym (nil-append s)
append-eq (c ∷ p) s = ap (λ t. c ∷ t) (append-eq p s) ∙ sym (cons-append c p s)

same_letter-quote : (c d : Char) → code d ≡ 34 → same_char c d ≡ false → same_letter d c ≡ false
same_letter-quote c d h1 h2 = ground arith

same_letter_self : (c : Char) → same_letter c c ≡ true
same_letter_self c = ground arith

quote-same_letter : (c d : Char) → code d ≡ 34 → same_char c d ≡ false → same_letter c d ≡ false
quote-same_letter c d h1 h2 = ground arith

quote-other : (q c : Char) → code q ≡ 34 → same_char c q ≡ false → same_number (code c) 34 ≡ false
quote-other q c h1 h2 = ground arith

-- A literal with a quote only matches a text up to the first quote of that text.
after_literal-quote :
    (q : Char) (lit later s tail : String) (g : String → Option String)
    → code q ≡ 34
    → has_char q lit ≡ false
    → has_char q s ≡ false
    → bind_option (after_literal later tail) g ≡ none
    → bind_option (after_literal (append lit (q ∷ later)) (append s (q ∷ tail))) g ≡ none
unfolding after_literal append has_char
after_literal-quote q [] later [] tail g h1 h2 h3 h4 = rw (same_letter_self q) h4
after_literal-quote q [] later (c ∷ s) tail g h1 h2 h3 h4 =
    rw (same_letter-quote c q h1 (ground arith)) refl
after_literal-quote q (l ∷ lit) later [] tail g h1 h2 h3 h4 =
    rw (quote-same_letter l q h1 (ground arith)) refl
after_literal-quote q (l ∷ lit) later (c ∷ s) tail g h1 h2 h3 h4 =
    elim (Bool-cases (same_letter l c)) [
      | inl same ↦
          rw same (after_literal-quote q lit later s tail g h1 (ground arith) (ground arith) h4)
      | inr other ↦ rw other refl
    ]

-- A stretch is none where the rest of the pattern matches nowhere.
either_none : (b : Bool) → ◌≡◌ {A = Option String} (if b then none else or_else none none) none
either_none true = refl
either_none false = refl

greedy-none :
    (f : String → Option String) (q : Char) (s tail : String)
    → ((t : String) → has_char q t ≡ false → f (append t (q ∷ tail)) ≡ none)
    → has_char q s ≡ false
    → greedy f (q ∷ tail) ≡ none
    → greedy f (append s (q ∷ tail)) ≡ none
unfolding greedy append has_char
greedy-none f q [] tail none_at h1 h2 = h2
greedy-none f q (c ∷ s) tail none_at h1 h2 =
    rw (none_at (c ∷ s) h1, greedy-none f q s tail none_at (ground arith) h2)
      (either_none (same_number (code c) 62))

up_to_quote-append :
    (q : Char) (s tail : String)
    → code q ≡ 34
    → has_char q s ≡ false
    → up_to_quote (append s (q ∷ tail)) ≡ some s
unfolding up_to_quote append has_char
up_to_quote-append q [] tail h1 h2 = rw h1 refl
up_to_quote-append q (c ∷ s) tail h1 h2 =
    rw (quote-other q c h1 (ground arith), up_to_quote-append q s tail h1 (ground arith)) refl

abbrev pub quote : Char
quote = "\""

-- The page of a form with one hidden field, the response.
abbrev pub front : String
front = "<form method=\"post\"><input type=\"hidden\" name=\"response\" value=\""

abbrev pub page_of : String → String
page_of response = front <> ((response <> "\"/></form>"))

value_none : (s : String) → has_char quote s ≡ false → match_value (append s "\"/></form>") ≡ none
unfolding match_value has_char after_literal up_to_quote append
value_none s h = after_literal-quote quote "value=" "" s "/></form>" up_to_quote refl refl h refl

name_none : (s : String) → has_char quote s ≡ false → match_name (append s "\"/></form>") ≡ none
unfolding match_name has_char after_literal append
name_none s h =
    after_literal-quote quote "name=" "response\"" s "/></form>" (greedy match_value) refl refl h
      refl

no_value :
    (s : String) → has_char quote s ≡ false → greedy match_value (append s "\"/></form>") ≡ none
unfolding match_value after_literal greedy
no_value s h = greedy-none match_value quote s "/></form>" value_none h refl

no_name :
    (s : String) → has_char quote s ≡ false → greedy match_name (append s "\"/></form>") ≡ none
unfolding match_name after_literal greedy
no_name s h = greedy-none match_name quote s "/></form>" name_none h refl

form_post_match-append :
    (s : String)
    → has_char quote s ≡ false
    → form_post_match (append front (append s "\"/></form>")) ≡ some s
unfolding form_post_match match_here match_name match_value greedy after_literal append up_to_quote
form_post_match-append s h =
    rw (no_name s h, no_value s h, up_to_quote-append quote s "/></form>" refl h) refl

form_post_match-page_of :
    (s : String) → has_char quote s ≡ false → form_post_match (page_of s) ≡ some s
form_post_match-page_of s h =
    ap form_post_match (
      ap (λ t. front <> t) (sym (append-eq s "\"/></form>"))
      ∙ sym (append-eq front (append s "\"/></form>")))
    ∙ form_post_match-append s h

-- If the response of a page with one hidden field has no quote and is not empty, the form post gives
-- that response without its white space, decoded; it throws exactly what the decoding throws.
pub get_jwt_from_form_post-page_of :
    (H : Host) (response : String)
    → has_char quote response ≡ false
    → (response == "") ≡ false
    → get_jwt_from_form_post H (page_of response) ≡ (
        H.jwt_decode (without_spaces response) >>= λ decoded.
        ok (record { jwt = without_spaces response; decoded_jwt = decoded }))
unfolding get_jwt_from_form_post
get_jwt_from_form_post-page_of H response h1 h2 =
    rw (get_jwt_from_form_post, form_post_match-page_of response h1, h2) refl
