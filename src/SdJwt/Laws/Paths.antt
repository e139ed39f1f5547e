-- ===== src/SdJwt/Laws/Paths.antt =====
-- The paths that `disclose` returns, and the claims that make it fail.
use io_react_native_wallet_i.Base.{◌≡◌, refl, ap, ◌∙◌, sym, ℕ, String}
use io_react_native_wallet_i.Base.{Option, none, some, List, [], ◌∷◌, arith, map, index_of}
use io_react_native_wallet_i.Base.{
  get_elem?, index_of-eq-some, Option-cases, inl, inr, find?, is_none, if◌then◌else◌,
}
use mathlib.Core.Path.{subst}
use io_react_native_wallet_i.Host.{Host}
use io_react_native_wallet_i.Errors.{
  new_claims_not_found_between_disclosures, new_claims_not_found_in_token,
}
use io_react_native_wallet_i.Errors.Result.{Result, ok, err, >>=-of_ok, >>=-of_err, ok-injective}
use io_react_native_wallet_i.Promise.{
  rejected_at_once, later, first_rejection, collect, collect-nil, collect-cons, promise_all-eq-ok,
  promise_all-eq-err,
}
use io_react_native_wallet_i.SdJwt.Types.{DisclosureWithEncoded, Decoded, parse_sd_jwt4_vc}
use io_react_native_wallet_i.SdJwt.Decode.{decode}
use io_react_native_wallet_i.SdJwt.Disclose.{
  ClaimPath, Disclosed, named, hash_of, path_text, locate, disclose,
}
use io_react_native_wallet_i.SdJwt.Laws.Disclosed.{disclose-Disclosing}

module _ (H : Host) where
  -- The path names the place among `_sd` of the hash of the first disclosure of the claim.
  pub record IsPath (decoded : Decoded) (claim : String) (p : ClaimPath) : Type 0 where
    pub disclosure : DisclosureWithEncoded
    pub index : ℕ
    pub claim_eq : p.claim ≡ claim
    pub path_eq : p.path ≡ path_text H index
    pub found : named H claim decoded.disclosures ≡ some disclosure
    pub placed : get_elem? decoded.sd_jwt.payload.sd index ≡ some (hash_of H disclosure)

  abbrev pub ArePaths : Decoded → List String → List ClaimPath → Type 0
  ArePaths decoded [] [] = Unit
  ArePaths decoded (c ∷ claims) (p ∷ paths) = IsPath decoded c p × ArePaths decoded claims paths
  ArePaths decoded _ _ = ⊥

  locate-none :
      (decoded : Decoded) (claim : String)
      → named H claim decoded.disclosures ≡ none
      → locate H decoded claim
        ≡ rejected_at_once (new_claims_not_found_between_disclosures (claim ∷ []))
  unfolding locate
  locate-none decoded claim h = rw (h, locate) refl

  locate-some :
      (decoded : Decoded) (claim : String) (d : DisclosureWithEncoded) (index : ℕ)
      → named H claim decoded.disclosures ≡ some d
      → index_of (hash_of H d) decoded.sd_jwt.payload.sd ≡ some index
      → locate H decoded claim ≡ later (ok (record { claim = claim; path = path_text H index }))
  unfolding locate
  locate-some decoded claim d index h k = ground arith

  locate-unplaced :
      (decoded : Decoded) (claim : String) (d : DisclosureWithEncoded)
      → named H claim decoded.disclosures ≡ some d
      → index_of (hash_of H d) decoded.sd_jwt.payload.sd ≡ none
      → locate H decoded claim ≡ later (err (new_claims_not_found_in_token (claim ∷ [])))
  unfolding locate
  locate-unplaced decoded claim d h k = ground arith

  locate-IsPath :
      (decoded : Decoded) (claim : String) (p : ClaimPath)
      → locate H decoded claim ≡ later (ok p)
      → IsPath decoded claim p
  locate-IsPath decoded claim p h = elim (Option-cases (named H claim decoded.disclosures)) [
    | inl missing ↦ absurd (cc (locate-none decoded claim missing))
    | inr (d, found) ↦ elim (Option-cases (index_of (hash_of H d) decoded.sd_jwt.payload.sd)) [
      | inl absent ↦ absurd (cc (locate-unplaced decoded claim d found absent))
      | inr (index, placed) ↦
          let e : record { claim = claim; path = path_text H index } ≡ p =
            cc (locate-some decoded claim d index found placed) in
          record {
            disclosure = d;
            index = index;
            claim_eq = ap (λ (x : ClaimPath). x.claim) (sym e);
            path_eq = ap (λ (x : ClaimPath). x.path) (sym e);
            found = found;
            placed = index_of-eq-some _ _ index placed;
          }
    ]
  ]

  collect-ArePaths :
      (decoded : Decoded) (claims : List String) (paths : List ClaimPath)
      → collect (map (locate H decoded) claims) ≡ ok paths
      → ArePaths decoded claims paths
  collect-ArePaths decoded [] paths h = subst (ArePaths decoded []) (collect-nil h) tt
  collect-ArePaths decoded (c ∷ claims) paths h =
      let (p, rest, h1, h2, e) =
        collect-cons (locate H decoded c) (map (locate H decoded) claims) h in
      subst (ArePaths decoded (c ∷ claims)) e
        (locate-IsPath decoded c p h1, collect-ArePaths decoded claims rest h2)

  -- If the token decodes and `disclose` succeeds, each claim gets one path, in order, which names the
  -- place among `_sd` of the hash of the first disclosure of that name.
  pub disclose-ArePaths :
      (token : String) (claims : List String) (out : Disclosed) (decoded : Decoded)
      → disclose H token claims ≡ ok out
      → decode H (parse_sd_jwt4_vc H.zod) token ≡ ok decoded
      → ArePaths decoded claims out.paths
  disclose-ArePaths token claims out decoded h k =
      let D = disclose-Disclosing H token claims out h in
      let same : D.decoded ≡ decoded = ok-injective (sym D.decodes ∙ k) in
      collect-ArePaths decoded claims out.paths (
        ap (λ (x : Decoded). collect (map (locate H x) claims)) (sym same)
        ∙ promise_all-eq-ok _ D.located)

  -- The first claim that no disclosure names, if there is one.
  abbrev pub first_missing : Decoded → List String → Option String
  first_missing decoded claims = find? (λ c. is_none (named H c decoded.disclosures)) claims

  locate-later :
      (decoded : Decoded) (claim : String) (d : DisclosureWithEncoded)
      → named H claim decoded.disclosures ≡ some d
      → (r : Result ClaimPath) × (locate H decoded claim ≡ later r)
  locate-later decoded claim d found =
      elim (Option-cases (index_of (hash_of H d) decoded.sd_jwt.payload.sd)) [
        | inl absent ↦ (_, locate-unplaced decoded claim d found absent)
        | inr (index, placed) ↦ (_, locate-some decoded claim d index found placed)
      ]

  first_missing-cons :
      (decoded : Decoded) (c : String) (claims : List String) (d : DisclosureWithEncoded)
      → named H c decoded.disclosures ≡ some d
      → first_missing decoded (c ∷ claims) ≡ first_missing decoded claims
  first_missing-cons decoded c claims d found =
      ap (λ o. if is_none o then some c else first_missing decoded claims) found

  first_missing-head :
      (decoded : Decoded) (c : String) (claims : List String)
      → named H c decoded.disclosures ≡ none
      → first_missing decoded (c ∷ claims) ≡ some c
  first_missing-head decoded c claims missing =
      ap (λ o. if is_none o then some c else first_missing decoded claims) missing

  first_rejection-locate :
      (decoded : Decoded) (claims : List String) (claim : String)
      → first_missing decoded claims ≡ some claim
      → first_rejection (map (locate H decoded) claims)
        ≡ some (new_claims_not_found_between_disclosures (claim ∷ []))
  unfolding first_rejection
  first_rejection-locate decoded [] claim h = cc
  first_rejection-locate decoded (c ∷ claims) claim h =
      elim (Option-cases (named H c decoded.disclosures)) [
        | inl missing ↦
            let same : c ≡ claim = cc (first_missing-head decoded c claims missing) in
            ap (λ s. first_rejection (s ∷ map (locate H decoded) claims))
              (locate-none decoded c missing)
            ∙ ap (λ x. some (new_claims_not_found_between_disclosures (x ∷ []))) same
        | inr (d, found) ↦
            let (r, e) = locate-later decoded c d found in
            ap (λ s. first_rejection (s ∷ map (locate H decoded) claims)) e
            ∙ first_rejection-locate decoded claims claim
                (sym (first_missing-cons decoded c claims d found) ∙ h)
      ]

  -- If the token decodes and some claim has no disclosure, `disclose` fails with
  -- `ClaimsNotFoundBetweenDisclosures` for the first such claim, even where an earlier claim is
  -- missing from `_sd`.
  pub disclose_missing :
      (token : String) (claims : List String) (decoded : Decoded) (claim : String)
      → decode H (parse_sd_jwt4_vc H.zod) token ≡ ok decoded
      → first_missing decoded claims ≡ some claim
      → disclose H token claims ≡ err (new_claims_not_found_between_disclosures (claim ∷ []))
  unfolding disclose
  disclose_missing token claims decoded claim h m =
      let e = promise_all-eq-err _ (first_rejection-locate decoded claims claim m) in
      >>=-of_ok (decode H (parse_sd_jwt4_vc H.zod) token) _ h ∙ >>=-of_err _ _ e
