-- ===== src/SdJwt/Laws/Verified.antt =====
-- What `verify` accepts, and that a disclosed token is accepted with the token that it comes from.
use io_react_native_wallet_i.Base.{◌≡◌, refl, ap, ◌∙◌, sym, ◌↔◌, String, true}
use io_react_native_wallet_i.Base.{
  List, [], ◌∷◌, filter, contains, All, All-filter, arith, split, map, head_or,
}
use io_react_native_wallet_i.Zod.{Schema}
use io_react_native_wallet_i.Host.{Host, PublicKeys, DecodedJwt}
use io_react_native_wallet_i.Errors.Result.{ok, map_ok, >>=-eq-ok, ok-injective, guard-eq-ok}
use io_react_native_wallet_i.SdJwt.Types.{Disclosure, DisclosureWithEncoded, SdJwt4Vc, Decoded}
use io_react_native_wallet_i.SdJwt.Decode.{tilde, decode}
use io_react_native_wallet_i.SdJwt.Disclose.{disclose, Disclosed}
use io_react_native_wallet_i.SdJwt.Verify.{Verified, verify_disclosure, verify}
use io_react_native_wallet_i.SdJwt.Laws.Keep.{EmptyIsRefused, is_kept}
use io_react_native_wallet_i.SdJwt.Laws.Disclosed.{disclose-Disclosing, kept_parts, disclose-decode}

module _ (H : Host) where
  -- The hash of the disclosure stands among `_sd`.
  abbrev pub IsReferenced : List String → DisclosureWithEncoded → Type 0
  IsReferenced sd d = contains sd (H.sha256_to_base64 d.encoded) ≡ true

  abbrev pub decoded_of : List DisclosureWithEncoded → List Disclosure
  decoded_of ds = map (λ d. d.decoded) ds

  -- The token decodes, its first part is signed by one of the keys, and the SD-JWT refers to each
  -- disclosure.
  pub record IsVerified (schema : Schema SdJwt4Vc) (token : String) (keys : PublicKeys)
      (r : Verified) : Type 0 where
    pub decoded : Decoded
    pub jwt : DecodedJwt
    pub decodes : decode H schema token ≡ ok decoded
    pub signed : H.jwt_verify (head_or "" (split tilde token)) keys ≡ ok jwt
    pub referenced : All (IsReferenced decoded.sd_jwt.payload.sd) decoded.disclosures
    pub result :
        record { sd_jwt = decoded.sd_jwt; disclosures = decoded_of decoded.disclosures } ≡ r

  All-IsReferenced :
      (sd : List String) (ds : List DisclosureWithEncoded) (us : List (Unit {0}))
      → map_ok (verify_disclosure H sd) ds ≡ ok us
      → All (IsReferenced sd) ds
  unfolding verify_disclosure
  All-IsReferenced sd [] us h = tt
  All-IsReferenced sd (d ∷ ds) us h =
      let (u, h1, r1) = >>=-eq-ok (verify_disclosure H sd d) _ h in
      let (vs, h2, r2) = >>=-eq-ok (map_ok (verify_disclosure H sd) ds) _ r1 in
      (guard-eq-ok _ _ h1, All-IsReferenced sd ds vs h2)

  referenced-All :
      (sd : List String) (ds : List DisclosureWithEncoded)
      → All (IsReferenced sd) ds
      → map_ok (verify_disclosure H sd) ds ≡ ok (map (λ _. tt) ds)
  unfolding verify_disclosure
  referenced-All sd [] h = refl
  referenced-All sd (d ∷ ds) (here, later) = rw (here, referenced-All sd ds later)

  verify_sound :
      (schema : Schema SdJwt4Vc) (token : String) (keys : PublicKeys) (r : Verified)
      → verify H schema token keys ≡ ok r
      → IsVerified schema token keys r
  unfolding verify
  verify_sound schema token keys r h =
      let (d, h1, r1) = >>=-eq-ok (decode H schema token) _ h in
      let (jwt, h2, r2) = >>=-eq-ok (H.jwt_verify (head_or "" (split tilde token)) keys) _ r1 in
      let (us, h3, r3) =
        >>=-eq-ok (map_ok (verify_disclosure H d.sd_jwt.payload.sd) d.disclosures) _ r2 in
      record {
        decoded = d;
        jwt = jwt;
        decodes = h1;
        signed = h2;
        referenced = All-IsReferenced d.sd_jwt.payload.sd d.disclosures us h3;
        result = ok-injective r3;
      }

  verify_complete :
      (schema : Schema SdJwt4Vc) (token : String) (keys : PublicKeys) (r : Verified)
      → IsVerified schema token keys r
      → verify H schema token keys ≡ ok r
  unfolding verify
  verify_complete schema token keys r v =
      rw
        (
          v.decodes,
          v.signed,
          referenced-All v.decoded.sd_jwt.payload.sd v.decoded.disclosures v.referenced,
        )
        (ap ok v.result)

  -- `verify` accepts a token exactly when it decodes, its first part is signed by one of the keys,
  -- and the hash of every disclosure stands among `_sd`; it returns what the token decodes to.
  pub verify_iff :
      (schema : Schema SdJwt4Vc) (token : String) (keys : PublicKeys) (r : Verified)
      → (verify H schema token keys ≡ ok r) ↔ IsVerified schema token keys r
  verify_iff schema token keys r =
      (verify_sound schema token keys r, verify_complete schema token keys r)

  decoded_of-filter :
      (claims : List String) (ds : List DisclosureWithEncoded)
      → decoded_of (filter (is_kept H claims) ds)
        ≡ filter (λ d. contains claims d.name) (decoded_of ds)
  decoded_of-filter claims [] = refl
  decoded_of-filter claims (d ∷ ds) = ground (arith, decoded_of-filter claims ds)

  -- If `verify` accepts a token and `disclose` succeeds on it, `verify` accepts the disclosed token
  -- under the same keys and gives the same SD-JWT with the disclosures whose name is among the
  -- claims; provided that the empty text decodes to no disclosure.
  pub disclose-verify :
      EmptyIsRefused H
      → (schema : Schema SdJwt4Vc) (token : String) (keys : PublicKeys) (claims : List String)
        (r : Verified) (out : Disclosed)
      → verify H schema token keys ≡ ok r
      → disclose H token claims ≡ ok out
      → verify H schema out.token keys
        ≡ ok (record r { disclosures = filter (λ d. contains claims d.name) r.disclosures })
  disclose-verify no_empty schema token keys claims r out h k =
      let v = verify_sound schema token keys r h in
      let D = disclose-Disclosing H token claims out k in
      let (new_parts, _) = kept_parts H no_empty token claims out D in
      verify_complete schema out.token keys _ (record {
        decoded = record {
          sd_jwt = v.decoded.sd_jwt;
          disclosures = filter (is_kept H claims) v.decoded.disclosures;
        };
        jwt = v.jwt;
        decodes = disclose-decode H no_empty schema token claims out v.decoded k v.decodes;
        signed =
            ap (λ l. H.jwt_verify (head_or "" l) keys) new_parts
            ∙ ap (λ l. H.jwt_verify (head_or "" l) keys) (sym D.parts)
            ∙ v.signed;
        referenced =
            All-filter (IsReferenced v.decoded.sd_jwt.payload.sd) (is_kept H claims)
              v.decoded.disclosures v.referenced;
        result =
            ap {B = Verified} (λ l. record { sd_jwt = v.decoded.sd_jwt; disclosures = l })
              (decoded_of-filter claims v.decoded.disclosures)
            ∙ ap
                (λ (x : Verified). record x {
                  disclosures = filter (λ d. contains claims d.name) x.disclosures;
                })
                v.result;
      })
