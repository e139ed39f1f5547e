-- ===== src/Trust/Chain/Renewal.antt =====
-- What `verifyTrustChain` does about renewal, and which requests `renewTrustChain` sends.
use io_react_native_wallet_i.Base.{◌≡◌, refl, ap, ◌∙◌, sym, ℕ, suc, String}
use io_react_native_wallet_i.Base.{Option, none, some, List, [], ◌∷◌, ◌++◌, arith}
use io_react_native_wallet_i.Host.{Host, DecodedJwt, Request}
use io_react_native_wallet_i.Errors.{Error}
use io_react_native_wallet_i.Errors.Result.{ok, err, map_ok}
use io_react_native_wallet_i.Promise.{World, send, start_all}
use io_react_native_wallet_i.SdJwt.Decode.{token_value}
use io_react_native_wallet_i.Trust.Types.{EntityStatement, parse_entity_statement}
use io_react_native_wallet_i.Trust.Entities.{
  EntityConfiguration, base_of, parse_entity_configuration,
}
use io_react_native_wallet_i.Trust.Chain.{
  get_request, get_text, well_known_url, fetch_url, get_signed_entity_configuration,
  get_signed_entity_statement, renew_parsed, renew_element, renewals, renew_trust_chain,
}

module _ (H : Host) where
  -- The request that renews an element, if it has a known shape: the entity's own configuration, or
  -- the statement that its superior publishes.
  abbrev pub request_for : Option EntityStatement → Option EntityConfiguration → List Request
  request_for es (some ec) = get_request (well_known_url (base_of ec).iss) ∷ []
  request_for (some es) none = get_request (fetch_url H es.iss es.sub) ∷ []
  request_for none none = []

  abbrev pub renewal_request : DecodedJwt → List Request
  renewal_request jwt =
      request_for (parse_entity_statement H.zod (token_value jwt))
        (parse_entity_configuration H.zod (token_value jwt))

  abbrev pub renewal_requests : List DecodedJwt → List Request
  renewal_requests [] = []
  renewal_requests (jwt ∷ jwts) = renewal_request jwt ++ renewal_requests jwts

  -- The log of requests after some more, newest first.
  abbrev pub log : List Request → List Request → List Request
  log [] sent = sent
  log (r ∷ rs) sent = log rs (r ∷ sent)

  log-append : (rs qs sent : List Request) → log (rs ++ qs) sent ≡ log qs (log rs sent)
  log-append [] qs sent = refl
  log-append (r ∷ rs) qs sent = log-append rs qs (r ∷ sent)

  -- One request is sent, whatever comes back.
  get_text-sent : (url : String) (w : World) → (get_text H url w).1.sent ≡ get_request url ∷ w.sent
  unfolding send
  get_text-sent url w = ground arith

  renew_parsed-sent :
      (i : ℕ) (es : Option EntityStatement) (ec : Option EntityConfiguration) (w : World)
      → (renew_parsed H i es ec w).1.sent ≡ log (request_for es ec) w.sent
  unfolding renew_parsed get_signed_entity_configuration get_signed_entity_statement
  renew_parsed-sent i es (some ec) w = get_text-sent (well_known_url (base_of ec).iss) w
  renew_parsed-sent i (some es) none w = get_text-sent (fetch_url H es.iss es.sub) w
  renew_parsed-sent i none none w = refl

  renew_element-sent :
      (i : ℕ) (jwt : DecodedJwt) (w : World)
      → (renew_element H i jwt w).1.sent ≡ log (renewal_request jwt) w.sent
  unfolding renew_element
  renew_element-sent i jwt w = renew_parsed-sent i _ _ w

  renewals-sent :
      (i : ℕ) (jwts : List DecodedJwt) (w : World)
      → (start_all (renewals H i jwts) w).1.sent ≡ log (renewal_requests jwts) w.sent
  unfolding renewals start_all
  renewals-sent i [] w = refl
  renewals-sent i (jwt ∷ jwts) w =
      renewals-sent (suc i) jwts (renew_element H i jwt w).1
      ∙ ap (log (renewal_requests jwts)) (renew_element-sent i jwt w)
      ∙ sym (log-append (renewal_request jwt) (renewal_requests jwts) w.sent)

  -- If every token of the chain decodes, renewal sends, in order, one request for each element of a
  -- known shape and none for the others, also where some of them fail.
  pub renew_trust_chain-sent :
      (chain : List String) (jwts : List DecodedJwt) (w : World)
      → map_ok H.jwt_decode chain ≡ ok jwts
      → (renew_trust_chain H chain w).1.sent ≡ log (renewal_requests jwts) w.sent
  unfolding renew_trust_chain
  renew_trust_chain-sent chain jwts w h = rw h (renewals-sent 0 jwts w)

  -- If some token does not decode, renewal fails and sends nothing.
  pub renew_trust_chain-undecoded :
      (chain : List String) (w : World) {e : Error}
      → map_ok H.jwt_decode chain ≡ err e
      → renew_trust_chain H chain w ≡ (err e, w)
  unfolding renew_trust_chain
  renew_trust_chain-undecoded chain w h = rw h refl
