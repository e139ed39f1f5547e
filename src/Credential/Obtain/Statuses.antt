-- ===== src/Credential/Obtain/Statuses.antt =====
-- The request of a credential: what is sent, and which error an unexpected status gives.
use io_react_native_wallet_i.Base.{
  ◌≡◌, refl, ap, ◌∙◌, ℕ, ◌+◌, String, Option, true, false, ◌∷◌, any, same_number, some, [], List,
  All, ◌↔◌, eq_iff, eq_refl, Bool-cases, inl, inr, arith,
}
use io_react_native_wallet_i.Host.{Host, CryptoContext, Request, Response}
use io_react_native_wallet_i.Errors.{
  GenericErrorReason, issuer_response_error, unexpected_status_code_error, new_failure,
  as_unexpected_status_code_error,
}
use io_react_native_wallet_i.Errors.Codes.{obtain_code, obtain_message, handle_obtain_lem}
use io_react_native_wallet_i.Errors.Handlers.{handle_obtain_credential_error}
use io_react_native_wallet_i.Errors.Result.{ok, err}
use io_react_native_wallet_i.Promise.{
  World, Async, ◌>>=◌, send, draw_uuid, catch_with, lift, catch_with-of_thrown,
}
use io_react_native_wallet_i.Promise.Grows.{IsGrown, Grows, growing}
use io_react_native_wallet_i.Credential.Grows.{fetch_json-Grows}
use io_react_native_wallet_i.Http.{
  parse_raw_http_response, has_status_or_throw, status_message, unexpected_status,
}
use io_react_native_wallet_i.Tokens.{create_dpop_token, create_nonce_proof, DpopPayload}
use io_react_native_wallet_i.Trust.Entities.{IssuerMetadata}
use io_react_native_wallet_i.Credential.Obtain.{
  AuthorizationDetail, TokenResponse, CredentialResponse, same_detail, credential_request,
  missing_definition, obtain_credential, fetch_json, read_credential,
}

same_detail-holds : (c d : AuthorizationDetail) → same_detail c d ≡ true → c ≡ d
same_detail-holds c d h =
    detail_eq (ground (arith, eq_iff c.credential_configuration_id d.credential_configuration_id))
      (ground (arith, eq_iff c.format d.format)) (ground (arith, eq_iff c.type d.type))
  where
    detail_eq :
        c.credential_configuration_id ≡ d.credential_configuration_id
        → c.format ≡ d.format
        → c.type ≡ d.type
        → c ≡ d
    detail_eq a b e i = record { credential_configuration_id = a i; format = b i; type = e i }

same_detail_refl : (d : AuthorizationDetail) → same_detail d d ≡ true
same_detail_refl d =
    rw (eq_refl d.credential_configuration_id, eq_refl d.format, eq_refl d.type) refl

any-All :
    (definition : AuthorizationDetail) (ds : List AuthorizationDetail)
    → any (λ c. same_detail c definition) ds ≡ false
    → All (λ d. ¬ (d ≡ definition)) ds
any-All definition [] h = tt
any-All definition (d ∷ ds) h = (
  λ same. cc (same_detail_refl definition, ap (λ c. same_detail c definition) same, h),
  any-All definition ds (ground (arith)),
)

All-any :
    (definition : AuthorizationDetail) (ds : List AuthorizationDetail)
    → All (λ d. ¬ (d ≡ definition)) ds
    → any (λ c. same_detail c definition) ds ≡ false
All-any definition [] h = refl
All-any definition (d ∷ ds) (apart, rest) = elim (Bool-cases (same_detail d definition)) [
  | inl same ↦ absurd (apart (same_detail-holds d definition same))
  | inr other ↦ rw other (All-any definition ds rest)
]

module _ (H : Host) where
  has_status_or_throw_other :
      (n : ℕ) (res : Response) (reason : GenericErrorReason)
      → same_number res.status n ≡ false
      → parse_raw_http_response H res ≡ ok reason
      → has_status_or_throw H n (unexpected_status H) res
        ≡ err (
            unexpected_status_code_error
              (new_failure H.json_stringify (status_message H n res) reason res.status))
  unfolding has_status_or_throw
  has_status_or_throw_other n res reason h1 h2 = rw (h1, h2) refl

  -- The answer has another status and a readable body.
  fetch_json_other :
      (n : ℕ) (request : Request) (w : World) (res : Response) (reason : GenericErrorReason)
      → H.fetch w.sent request ≡ ok res
      → same_number res.status n ≡ false
      → parse_raw_http_response H res ≡ ok reason
      → fetch_json H n request w ≡ (
        err (
            unexpected_status_code_error
              (new_failure H.json_stringify (status_message H n res) reason res.status)),
        record w { sent = request ∷ w.sent },
      )
  unfolding send
  fetch_json_other n request w res reason h1 h2 h3 =
      rw (h1, has_status_or_throw_other n res reason h2 h3) refl

  pub fetch_json_handled :
      (n : ℕ) (request : Request) (w : World) (res : Response) (reason : GenericErrorReason)
      → H.fetch w.sent request ≡ ok res
      → same_number res.status n ≡ false
      → parse_raw_http_response H res ≡ ok reason
      → catch_with (handle_obtain_credential_error H.json_stringify) (fetch_json H n request) w ≡ (
        err (
            issuer_response_error
              (obtain_code res.status)
              (new_failure H.json_stringify (obtain_message res.status) reason res.status)),
        record w { sent = request ∷ w.sent },
      )
  unfolding as_unexpected_status_code_error new_failure
  fetch_json_handled n request w res reason h1 h2 h3 =
      let f = new_failure H.json_stringify (status_message H n res) reason res.status in
      catch_with-of_thrown (handle_obtain_credential_error H.json_stringify)
        (fetch_json H n request) w (fetch_json_other n request w res reason h1 h2 h3)
      ∙ ap (λ e. (err e, record w { sent = request ∷ w.sent }))
          (handle_obtain_lem H.json_stringify (unexpected_status_code_error f) f refl)

  abbrev pub dpop_payload : IssuerMetadata → TokenResponse → World → DpopPayload
  dpop_payload conf access_token w = record {
    htm = "POST";
    htu = conf.openid_credential_issuer.credential_endpoint;
    jti = H.uuid w.drawn;
    ath = some (H.sha256_to_base64 access_token.access_token);
  }

  module _ (conf : IssuerMetadata) (access_token : TokenResponse) (client_id : Option String)
      (definition : AuthorizationDetail) (dpop_ctx credential_ctx : CryptoContext) (w : World)
      (proof : String)
      (has_proof : create_nonce_proof H access_token.c_nonce client_id
          conf.openid_credential_issuer.credential_endpoint credential_ctx
        ≡ ok proof) where
    uncovered :
        any (λ c. same_detail c definition) access_token.authorization_details ≡ false
        → obtain_credential H conf access_token client_id definition dpop_ctx credential_ctx w
          ≡ (err (missing_definition H), w)
    unfolding obtain_credential
    uncovered h = rw (has_proof, h) refl

    -- What follows once the access token covers the definition.
    abbrev covered_rest : Async CredentialResponse
    covered_rest =
        lift (create_dpop_token H (dpop_payload conf access_token w) dpop_ctx) >>= λ dpop.
        catch_with (handle_obtain_credential_error H.json_stringify) (
          fetch_json H 200 (
            credential_request H conf.openid_credential_issuer.credential_endpoint access_token
              definition proof dpop))
        >>= λ body. lift (read_credential H body)

    covered_rest-Grows : Grows covered_rest
    covered_rest-Grows = search (growing, fetch_json-Grows) depth 16

    covered_drawn :
        any (λ c. same_detail c definition) access_token.authorization_details ≡ true
        → IsGrown
            (record w { drawn = w.drawn + 1 })
            (obtain_credential H conf access_token client_id definition dpop_ctx credential_ctx w).1
    unfolding obtain_credential draw_uuid Grows
    covered_drawn h = rw (has_proof, h) (covered_rest-Grows (record w { drawn = w.drawn + 1 }))

    -- If the nonce proof is made, obtainCredential fails with its validation error, with nothing
    -- sent and nothing drawn, exactly when no authorization detail of the access token is the
    -- credential definition in its id, its format and its type.
    pub obtain_credential_uncovered_iff :
        (obtain_credential H conf access_token client_id definition dpop_ctx credential_ctx w
          ≡ (err (missing_definition H), w))
        ↔ All (λ d. ¬ (d ≡ definition)) access_token.authorization_details
    obtain_credential_uncovered_iff = (
      λ h.
          elim (Bool-cases
            (any (λ c. same_detail c definition) access_token.authorization_details)) [
              | inl holds ↦
                  absurd (omega (arith, (covered_drawn holds).drawn, ap (λ p. p.1.drawn) h))
              | inr fails ↦ any-All definition access_token.authorization_details fails
            ],
      λ none_same. uncovered (All-any definition access_token.authorization_details none_same),
    )
