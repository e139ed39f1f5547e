-- ===== src/SdJwt/Laws/Disclosed.antt =====
-- A disclosed token against the token that it comes from.
use io_react_native_wallet_i.Base.{◌≡◌, ap, ◌∙◌, ◌≢◌, sym, String, true, false, List, ◌∷◌}
use io_react_native_wallet_i.Base.{filter, All, split, join, ends_with, map, head_or, rest_of}
use io_react_native_wallet_i.Base.Text.Split.{
  IsFree, split_cases, join-split, split-IsFree, split-join, ends_with-join,
}
use mathlib.Core.Path.{subst}
use io_react_native_wallet_i.Zod.{Schema, parse}
use io_react_native_wallet_i.Host.{Host}
use io_react_native_wallet_i.Errors.Result.{ok, map_ok, >>=-eq-ok, ok-injective}
use io_react_native_wallet_i.Promise.{promise_all}
use io_react_native_wallet_i.SdJwt.Types.{
  DisclosureWithEncoded, SdJwt4Vc, Decoded, parse_sd_jwt4_vc,
}
use io_react_native_wallet_i.SdJwt.Decode.{
  tilde, decode_disclosure, decode_parts, decode, token_value,
}
use io_react_native_wallet_i.SdJwt.Disclose.{keep, disclose, locate, Disclosed}
use io_react_native_wallet_i.SdJwt.Laws.Keep.{
  EmptyIsRefused, is_kept, keep-decoded, keep-All, keep-nonempty,
}

module _ (H : Host) where
  -- The rest of the parts decides the disclosures, and nothing else.
  pub decode_parts-swap :
      (schema : Schema SdJwt4Vc) (p : String) (ps qs : List String) (d : Decoded)
      (es : List DisclosureWithEncoded)
      → decode_parts H schema (p ∷ ps) ≡ ok d
      → map_ok (decode_disclosure H) qs ≡ ok es
      → decode_parts H schema (p ∷ qs) ≡ ok (record { sd_jwt = d.sd_jwt; disclosures = es })
  unfolding decode_parts
  decode_parts-swap schema p ps qs d es h k =
      let (jwt, h1, r1) = >>=-eq-ok (H.jwt_decode p) _ h in
      let (sd_jwt, h2, r2) = >>=-eq-ok (parse H.zod "SdJwt4VC" schema (token_value jwt)) _ r1 in
      let (ds, h3, r3) = >>=-eq-ok (map_ok (decode_disclosure H) ps) _ r2 in
      rw (h1, h2, k)
        (ap (λ (x : Decoded). ok (record { sd_jwt = x.sd_jwt; disclosures = es }))
          (ok-injective r3))

  pub decode_parts-disclosures :
      (schema : Schema SdJwt4Vc) (p : String) (ps : List String) (d : Decoded)
      → decode_parts H schema (p ∷ ps) ≡ ok d
      → map_ok (decode_disclosure H) ps ≡ ok d.disclosures
  unfolding decode_parts
  decode_parts-disclosures schema p ps d h =
      let (jwt, h1, r1) = >>=-eq-ok (H.jwt_decode p) _ h in
      let (sd_jwt, h2, r2) = >>=-eq-ok (parse H.zod "SdJwt4VC" schema (token_value jwt)) _ r1 in
      let (ds, h3, r3) = >>=-eq-ok (map_ok (decode_disclosure H) ps) _ r2 in
      h3 ∙ ap (λ (x : Decoded). ok x.disclosures) (ok-injective r3)

  pub decode-eq-parts :
      (schema : Schema SdJwt4Vc) (token : String)
      → ends_with tilde token ≡ false
      → decode H schema token ≡ decode_parts H schema (split tilde token)
  unfolding decode
  decode-eq-parts schema token h = rw h

  -- What a successful `disclose` did.
  pub record Disclosing (token : String) (claims : List String) (out : Disclosed) : Type 0 where
    pub head : String
    pub rest : List String
    pub kept : List String
    pub decoded : Decoded
    pub parts : split tilde token ≡ head ∷ rest
    pub decodes : decode H (parse_sd_jwt4_vc H.zod) token ≡ ok decoded
    pub located : promise_all (map (locate H decoded) claims) ≡ ok out.paths
    pub keeps : keep H claims rest ≡ ok kept
    pub token_eq : out.token ≡ join "~" (head ∷ kept)

  pub disclose-Disclosing :
      (token : String) (claims : List String) (out : Disclosed)
      → disclose H token claims ≡ ok out
      → Disclosing token claims out
  unfolding disclose
  disclose-Disclosing token claims out h =
      let (p, ps, e) = split_cases tilde token in
      let (d, h1, r1) = >>=-eq-ok (decode H (parse_sd_jwt4_vc H.zod) token) _ h in
      let (paths, h2, r2) = >>=-eq-ok (promise_all (map (locate H d) claims)) _ r1 in
      let (kept, h3, r3) = >>=-eq-ok (keep H claims (rest_of (split tilde token))) _ r2 in
      let out_eq : record {
        token = join "~" (head_or "" (split tilde token) ∷ kept);
        paths = paths;
      }
          ≡ out =
        ok-injective r3 in
      record {
        head = p;
        rest = ps;
        kept = kept;
        decoded = d;
        parts = e;
        decodes = h1;
        located = h2 ∙ ap (λ (x : Disclosed). ok x.paths) out_eq;
        keeps = ap (λ l. keep H claims (rest_of l)) (sym e) ∙ h3;
        token_eq =
            ap (λ (x : Disclosed). x.token) (sym out_eq)
            ∙ ap (λ l. join "~" (head_or "" l ∷ kept)) e;
      }

  parts-IsFree :
      (token : String) (claims : List String) (out : Disclosed) (D : Disclosing token claims out)
      → All (IsFree tilde) (D.head ∷ D.rest)
  parts-IsFree token claims out D = subst (All (IsFree tilde)) D.parts (split-IsFree tilde token)

  module _ (no_empty : EmptyIsRefused H) where
    -- A token that can be disclosed does not end in `~`.
    pub disclose-unended :
        (token : String) (claims : List String) (out : Disclosed)
        → Disclosing token claims out
        → ends_with tilde token ≡ false
    disclose-unended token claims out D =
        ap (ends_with tilde) (sym (join-split tilde token) ∙ ap (join "~") D.parts)
        ∙ ends_with-join tilde D.head D.rest (parts-IsFree token claims out D)
            (keep-nonempty H no_empty claims D.rest D.kept D.keeps)

    pub kept_parts :
        (token : String) (claims : List String) (out : Disclosed) (D : Disclosing token claims out)
        → (split tilde out.token ≡ D.head ∷ D.kept) × (ends_with tilde out.token ≡ false)
    kept_parts token claims out D =
        let (free, frees) = parts-IsFree token claims out D in
        let kept_free = keep-All H (IsFree tilde) claims D.rest D.kept D.keeps frees in
        let full = keep-nonempty H no_empty claims D.rest D.kept D.keeps in
        let kept_full = keep-All H (λ s. s ≢ "") claims D.rest D.kept D.keeps full in
        (
          ap (split tilde) D.token_eq ∙ split-join tilde D.head D.kept (free, kept_free),
          ap (ends_with tilde) D.token_eq
              ∙ ends_with-join tilde D.head D.kept (free, kept_free) kept_full,
        )

    -- A disclosed token decodes, under any schema that the original decodes under, to the same SD-JWT
    -- with exactly those disclosures of the original whose name is among the claims, in their order;
    -- provided that the empty text decodes to no disclosure.
    pub disclose-decode :
        (schema : Schema SdJwt4Vc) (token : String) (claims : List String) (out : Disclosed)
        (d : Decoded)
        → disclose H token claims ≡ ok out
        → decode H schema token ≡ ok d
        → decode H schema out.token
          ≡ ok (record { sd_jwt = d.sd_jwt; disclosures = filter (is_kept H claims) d.disclosures })
    disclose-decode schema token claims out d h k =
        let D = disclose-Disclosing token claims out h in
        let (new_parts, new_end) = kept_parts token claims out D in
        let (ds, whole, part) = keep-decoded H claims D.rest D.kept D.keeps in
        let old : decode_parts H schema (D.head ∷ D.rest) ≡ ok d =
          ap (decode_parts H schema) (sym D.parts)
          ∙ sym (decode-eq-parts schema token (disclose-unended token claims out D))
          ∙ k in
        let same : ds ≡ d.disclosures =
          ok-injective (sym whole ∙ decode_parts-disclosures schema D.head D.rest d old) in
        decode-eq-parts schema out.token new_end
        ∙ ap (decode_parts H schema) new_parts
        ∙ decode_parts-swap schema D.head D.rest D.kept d _ old
            (part ∙ ap (λ l. ok (filter (is_kept H claims) l)) same)

    -- A token that ends in `~` cannot be disclosed, whatever the claims; provided that the empty text
    -- decodes to no disclosure.
    pub disclose_ended :
        (token : String) (claims : List String)
        → ends_with tilde token ≡ true
        → (out : Disclosed) → disclose H token claims ≢ ok out
    disclose_ended token claims h out e =
        let unended = disclose-unended token claims out (disclose-Disclosing token claims out e) in
        cc
