-- ===== src/Credential/Status/Bound.antt =====
-- What a status attestation that is accepted shows, and how its refusal surfaces.
use io_react_native_wallet_i.Base.{◌≡◌, refl, ◌⊎◌, inl, inr, String, ap, sym, ◌∙◌, ◌<>◌}
use io_react_native_wallet_i.Jwk.{Jwk}
use io_react_native_wallet_i.Zod.{parse}
use io_react_native_wallet_i.Host.{Host, CryptoContext, DecodedJwt, key_set}
use io_react_native_wallet_i.Errors.{Error, io_wallet_error}
use io_react_native_wallet_i.Errors.Result.{
  Result, ok, err, >>=-eq-ok, guard, guard-eq-ok, ok-injective,
}
use io_react_native_wallet_i.SdJwt.Decode.{token_value}
use io_react_native_wallet_i.Trust.Entities.{IssuerMetadata}
use io_react_native_wallet_i.Credential.Parse.{is_bound_to}
use io_react_native_wallet_i.Credential.Parse.Binding.{SameHolder, is_bound_to-SameHolder}
use io_react_native_wallet_i.Credential.Status.{
  ParsedStatusAttestation, parse_status_attestation, verify_status,
  verify_and_parse_status_attestation,
}

module _ (H : Host) where
  pub record IsStatus (conf : IssuerMetadata) (token : String) (ctx : CryptoContext)
      (r : ParsedStatusAttestation) : Type 0 where
    pub signed_jwt : DecodedJwt
    pub jwt : DecodedJwt
    pub holder : Jwk
    pub signed : H.jwt_verify token (key_set conf.openid_credential_issuer.jwks) ≡ ok signed_jwt
    pub decodes : H.jwt_decode token ≡ ok jwt
    pub parses :
        parse H.zod "ParsedStatusAttestation" (parse_status_attestation H.zod) (token_value jwt)
        ≡ ok r
    pub has_key : ctx.get_public_key ≡ ok holder
    pub same_holder : SameHolder r.cnf_jwk holder

  verify_status-IsStatus :
      (conf : IssuerMetadata) (token : String) (ctx : CryptoContext) (r : ParsedStatusAttestation)
      → verify_status H conf token ctx ≡ ok r
      → IsStatus conf token ctx r
  unfolding verify_status
  verify_status-IsStatus conf token ctx r h =
      let (s, h1, r1) =
        >>=-eq-ok (H.jwt_verify token (key_set conf.openid_credential_issuer.jwks)) _ h in
      let (jwt, h2, r2) = >>=-eq-ok (H.jwt_decode token) _ r1 in
      let (p, h3, r3) =
        >>=-eq-ok
          (parse H.zod "ParsedStatusAttestation" (parse_status_attestation H.zod) (token_value jwt))
          _ r2 in
      let (holder, h4, r4) = >>=-eq-ok ctx.get_public_key _ r3 in
      let (u, h5, r5) = >>=-eq-ok (guard (is_bound_to p.cnf_jwk holder) _) _ r4 in
      let same = ok-injective r5 in
      record {
        signed_jwt = s;
        jwt = jwt;
        holder = holder;
        signed = h1;
        decodes = h2;
        parses = h3 ∙ ap ok same;
        has_key = h4;
        same_holder = is_bound_to-SameHolder r.cnf_jwk holder (
            ap (λ (x : ParsedStatusAttestation). is_bound_to x.cnf_jwk holder) (sym same)
            ∙ guard-eq-ok _ _ h5);
      }

  wrapped :
      (error_json : Error → String) (m : Result ParsedStatusAttestation)
      → ((r : ParsedStatusAttestation) × (m ≡ ok r)
          × ((elim m [
            | ok parsed ↦ ok parsed
            | err e ↦
                err (io_wallet_error ("Failed to verify status attestation: " <> error_json e))
          ])
              ≡ ok r))
        ⊎ ((e : Error) × (m ≡ err e)
            × ((elim m [
              | ok parsed ↦ ok parsed
              | err e ↦
                  err (io_wallet_error ("Failed to verify status attestation: " <> error_json e))
            ])
                ≡ err (io_wallet_error ("Failed to verify status attestation: " <> error_json e))))
  wrapped error_json (ok r) = inl (r, refl, refl)
  wrapped error_json (err e) = inr (e, refl, refl)

  -- A status attestation is either accepted, and then it is signed by a key of the issuer, parses to
  -- the result, and its confirmation key has the key id of the holder's key, which is not empty; or
  -- it is refused with an `IoWalletError` that carries the error of the step that failed.
  pub verify_and_parse_status_cases :
      (error_json : Error → String) (conf : IssuerMetadata) (token : String) (ctx : CryptoContext)
      → ((r : ParsedStatusAttestation) × (verify_and_parse_status_attestation H error_json conf
              token ctx
            ≡ ok r)
          × IsStatus conf token ctx r)
        ⊎ ((e : Error) × (verify_status H conf token ctx ≡ err e)
            × (verify_and_parse_status_attestation H error_json conf token ctx
                ≡ err (io_wallet_error ("Failed to verify status attestation: " <> error_json e))))
  unfolding verify_and_parse_status_attestation
  verify_and_parse_status_cases error_json conf token ctx =
      elim (wrapped error_json (verify_status H conf token ctx)) [
        | inl (r, h, result) ↦ inl (r, result, verify_status-IsStatus conf token ctx r h)
        | inr (e, h, result) ↦ inr (e, h, result)
      ]
