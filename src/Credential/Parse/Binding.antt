-- ===== src/Credential/Parse/Binding.antt =====
-- What a verified credential is bound to.
use io_react_native_wallet_i.Base.{
  ◌≡◌, refl, ◌∙◌, sym, ◌≢◌, ap, ◌*◌, String, Bool, true, false, not, Option, none, some, List, ◌==◌,
  ◌&&◌, arith, eq_iff,
}
use io_react_native_wallet_i.Jwk.{Jwk}
use io_react_native_wallet_i.Host.{Host, CryptoContext, key_set}
use io_react_native_wallet_i.Errors.Result.{ok, >>=-eq-ok, guard, guard-eq-ok, ok-injective}
use io_react_native_wallet_i.SdJwt.Types.{parse_sd_jwt4_vc}
use io_react_native_wallet_i.SdJwt.Verify.{Verified, verify}
use io_react_native_wallet_i.SdJwt.Laws.Verified.{IsVerified, verify_iff}
use io_react_native_wallet_i.Trust.Entities.{IssuerMetadata}
use io_react_native_wallet_i.Credential.Parse.{
  is_bound_to, verify_credential_sd_jwt, verify_and_parse_credential_sd_jwt,
  verify_and_parse_credential, parse_credential_sd_jwt, VerifiedCredential,
}
use io_react_native_wallet_i.Credential.Parse.Attributes.{IsParsed, parse_credential-IsParsed}

-- The two keys carry the same key id, which is not empty.
abbrev pub SameHolder : Jwk → Jwk → Type 0
SameHolder cnf holder = (kid : String) × (cnf.kid ≡ some kid) × (holder.kid ≡ some kid) × (kid ≢ "")

same_kids :
    (cnf_kid holder_kid : Option String)
    → (elim cnf_kid [
      | none ↦ false
      | some kid ↦ elim holder_kid [ none ↦ false | some k ↦ not (kid == "") && kid == k ]
    ])
      ≡ true
    → (kid : String) × (cnf_kid ≡ some kid) × (holder_kid ≡ some kid) × (kid ≢ "")
same_kids none holder_kid h = cc
same_kids (some kid) none h = cc
same_kids (some kid) (some k) h =
    (kid, refl, ground (arith, eq_iff kid k), ground (arith, eq_iff kid ""))

pub is_bound_to-SameHolder :
    (cnf holder : Jwk) → is_bound_to cnf holder ≡ true → SameHolder cnf holder
unfolding is_bound_to
is_bound_to-SameHolder cnf holder h = same_kids cnf.kid holder.kid h

module _ (H : Host) where
  pub record IsBound (conf : IssuerMetadata) (credential : String) (ctx : CryptoContext)
      (ignore_missing include_undefined : Bool) (r : VerifiedCredential) : Type 0 where
    pub verified : Verified
    pub holder_key : Jwk
    pub is_verified :
        IsVerified H
          (parse_sd_jwt4_vc H.zod)
          credential
          (key_set conf.openid_credential_issuer.jwks)
          verified
    pub has_key : ctx.get_public_key ≡ ok holder_key
    pub same_holder : SameHolder verified.sd_jwt.payload.cnf_jwk holder_key
    pub parsed :
        IsParsed conf.openid_credential_issuer.credential_configurations_supported verified
          ignore_missing include_undefined r.parsed_credential
    pub expires : r.expiration ≡ verified.sd_jwt.payload.exp * 1000

  verify_credential-IsVerified :
      (credential : String) (keys : List Jwk) (ctx : CryptoContext) (v : Verified)
      → verify_credential_sd_jwt H credential keys ctx ≡ ok v
      → (key : Jwk) × IsVerified H (parse_sd_jwt4_vc H.zod) credential (key_set keys) v
        × (ctx.get_public_key ≡ ok key)
        × SameHolder v.sd_jwt.payload.cnf_jwk key
  unfolding verify_credential_sd_jwt
  verify_credential-IsVerified credential keys ctx v h =
      let (d, h1, r1) =
        >>=-eq-ok (verify H (parse_sd_jwt4_vc H.zod) credential (key_set keys)) _ h in
      let (key, h2, r2) = >>=-eq-ok ctx.get_public_key _ r1 in
      let (u, h3, r3) = >>=-eq-ok (guard (is_bound_to d.sd_jwt.payload.cnf_jwk key) _) _ r2 in
      let same = ok-injective r3 in
      (
        key,
        (verify_iff H (parse_sd_jwt4_vc H.zod) credential (key_set keys) v).0 (h1 ∙ ap ok same),
        h2,
        is_bound_to-SameHolder v.sd_jwt.payload.cnf_jwk key (
            ap (λ (x : Verified). is_bound_to x.sd_jwt.payload.cnf_jwk key) (sym same)
            ∙ guard-eq-ok _ _ h3),
      )

  verify_and_parse_sd_jwt-IsBound :
      (conf : IssuerMetadata) (credential : String) (ctx : CryptoContext)
      (ignore_missing include_undefined : Bool) (r : VerifiedCredential)
      → verify_and_parse_credential_sd_jwt H conf credential ctx ignore_missing include_undefined
        ≡ ok r
      → IsBound conf credential ctx ignore_missing include_undefined r
  unfolding verify_and_parse_credential_sd_jwt
  verify_and_parse_sd_jwt-IsBound conf credential ctx ignore_missing include_undefined r h =
      let issuer = conf.openid_credential_issuer in
      let (v, h1, r1) = >>=-eq-ok (verify_credential_sd_jwt H credential issuer.jwks ctx) _ h in
      let (attrs, h2, r2) =
        >>=-eq-ok
          (parse_credential_sd_jwt issuer.credential_configurations_supported v ignore_missing
            include_undefined)
          _ r1 in
      let (key, is_verified, has_key, same_holder) =
        verify_credential-IsVerified credential issuer.jwks ctx v h1 in
      let result = ok-injective r2 in
      record {
        verified = v;
        holder_key = key;
        is_verified = is_verified;
        has_key = has_key;
        same_holder = same_holder;
        parsed =
            parse_credential-IsParsed issuer.credential_configurations_supported v ignore_missing
              include_undefined r.parsed_credential (h2 ∙ ap (λ x. ok x.parsed_credential) result);
        expires = ap (λ x. x.expiration) (sym result);
      }

  -- If a credential is verified and parsed, it is signed by a key of the issuer and refers to each of
  -- its disclosures, the key id in its confirmation key is that of the holder's key and is not empty,
  -- its attributes are those that the parser gives, and its expiration is its `exp` in milliseconds.
  pub verify_and_parse-IsBound :
      (conf : IssuerMetadata) (credential format : String) (ctx : CryptoContext)
      (ignore_missing include_undefined : Bool) (r : VerifiedCredential)
      → verify_and_parse_credential H conf credential format ctx ignore_missing include_undefined
        ≡ ok r
      → IsBound conf credential ctx ignore_missing include_undefined r
  unfolding verify_and_parse_credential
  verify_and_parse-IsBound conf credential format ctx ignore_missing include_undefined r h =
      verify_and_parse_sd_jwt-IsBound conf credential ctx ignore_missing include_undefined r
        (ground (arith))
