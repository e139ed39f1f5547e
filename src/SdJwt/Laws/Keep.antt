-- ===== src/SdJwt/Laws/Keep.antt =====
-- The disclosures that `disclose` keeps, against those that the token decodes to.
use io_react_native_wallet_i.Base.{◌≡◌, refl, ◌≢◌, String, Bool, List, [], ◌∷◌}
use io_react_native_wallet_i.Base.{
  inl, inr, Bool-cases, if◌then◌else◌, filter, contains, All, All-if,
}
use mathlib.Core.Path.{subst}
use io_react_native_wallet_i.Host.{Host}
use io_react_native_wallet_i.Errors.Result.{ok, map_ok, >>=-eq-ok, ok-injective}
use io_react_native_wallet_i.SdJwt.Types.{DisclosureWithEncoded}
use io_react_native_wallet_i.SdJwt.Decode.{decode_disclosure}
use io_react_native_wallet_i.SdJwt.Disclose.{keep}

module _ (H : Host) where
  -- The empty text decodes to no disclosure: `JSON.parse("")` throws.
  abbrev pub EmptyIsRefused : Type 0
  EmptyIsRefused = (d : DisclosureWithEncoded) → decode_disclosure H "" ≢ ok d

  abbrev pub is_kept : List String → DisclosureWithEncoded → Bool
  is_kept claims d = contains claims d.decoded.name

  pub map_ok-cons :
      (x : String) (xs : List String) (d : DisclosureWithEncoded) (ds : List DisclosureWithEncoded)
      → decode_disclosure H x ≡ ok d
      → map_ok (decode_disclosure H) xs ≡ ok ds
      → map_ok (decode_disclosure H) (x ∷ xs) ≡ ok (d ∷ ds)
  map_ok-cons x xs d ds h k = rw (h, k)

  -- What a successful round of the filter did.
  record Round (claims : List String) (x : String) (xs ys : List String) : Type 0 where
    decoded : DisclosureWithEncoded
    kept : List String
    decodes : decode_disclosure H x ≡ ok decoded
    keeps : keep H claims xs ≡ ok kept
    result : (if is_kept claims decoded then x ∷ kept else kept) ≡ ys

  keep-Round :
      (claims : List String) (x : String) (xs ys : List String)
      → keep H claims (x ∷ xs) ≡ ok ys
      → Round claims x xs ys
  unfolding keep
  keep-Round claims x xs ys h =
      let (d, dec, h') = >>=-eq-ok (decode_disclosure H x) _ h in
      let (kept, rec, h'') = >>=-eq-ok (keep H claims xs) _ h' in
      record { decoded = d; kept = kept; decodes = dec; keeps = rec; result = ok-injective h'' }

  keep-nil : (claims ys : List String) → keep H claims [] ≡ ok ys → [] ≡ ys
  unfolding keep
  keep-nil claims ys h = ok-injective h

  decoded_round :
      (claims : List String) (x : String) (kept : List String) (d : DisclosureWithEncoded)
      (ds : List DisclosureWithEncoded)
      → decode_disclosure H x ≡ ok d
      → map_ok (decode_disclosure H) kept ≡ ok (filter (is_kept claims) ds)
      → map_ok (decode_disclosure H) (if is_kept claims d then x ∷ kept else kept)
        ≡ ok (filter (is_kept claims) (d ∷ ds))
  decoded_round claims x kept d ds dec part = elim (Bool-cases (is_kept claims d)) [
    | inl h ↦ rw h (map_ok-cons x kept d (filter (is_kept claims) ds) dec part)
    | inr h ↦ rw h part
  ]

  -- All the disclosures decode, and those kept decode to the ones whose name is among the claims.
  pub keep-decoded :
      (claims xs ys : List String)
      → keep H claims xs ≡ ok ys
      → (ds : List DisclosureWithEncoded) × (map_ok (decode_disclosure H) xs ≡ ok ds)
        × (map_ok (decode_disclosure H) ys ≡ ok (filter (is_kept claims) ds))
  keep-decoded claims [] ys h = ([], refl, rw (← keep-nil claims ys h) refl)
  keep-decoded claims (x ∷ xs) ys h =
      let r = keep-Round claims x xs ys h in
      let (ds, whole, part) = keep-decoded claims xs r.kept r.keeps in
      (
        r.decoded ∷ ds,
        map_ok-cons x xs r.decoded ds r.decodes whole,
        rw (← r.result) (decoded_round claims x r.kept r.decoded ds r.decodes part),
      )

  pub keep-All :
      (P : String → Type 0) (claims xs ys : List String)
      → keep H claims xs ≡ ok ys
      → All P xs
      → All P ys
  keep-All P claims [] ys h a = rw (← keep-nil claims ys h) tt
  keep-All P claims (x ∷ xs) ys h (p, a) =
      let r = keep-Round claims x xs ys h in
      rw (← r.result)
        (All-if P (is_kept claims r.decoded) x r.kept p (keep-All P claims xs r.kept r.keeps a))

  pub keep-nonempty :
      EmptyIsRefused
      → (claims xs ys : List String) → keep H claims xs ≡ ok ys
      → All (λ s. s ≢ "") xs
  keep-nonempty no_empty claims [] ys h = tt
  keep-nonempty no_empty claims (x ∷ xs) ys h =
      let r = keep-Round claims x xs ys h in
      (
        (λ e. no_empty r.decoded (subst (λ s. decode_disclosure H s ≡ ok r.decoded) e r.decodes)),
        keep-nonempty no_empty claims xs r.kept r.keeps,
      )
