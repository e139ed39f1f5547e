-- ===== src/Credential/Authorize/Presented.antt =====
-- The completion of the authorization by a presentation, `completeUserAuthorizationWithFormPostJwtMode`
-- of src/credential/issuance/04-complete-user-authorization.ts: what was sent when it returns.
use io_react_native_wallet_i.Base.{◌≡◌, sym, ap, ◌∙◌, ◌+◌, String, some, none, true, [], ◌∷◌}
use io_react_native_wallet_i.Value.{Value, obj, arr}
use io_react_native_wallet_i.Host.{Host, CryptoContext, Request, Response}
use io_react_native_wallet_i.Errors.Result.{ok}
use io_react_native_wallet_i.Promise.{World, draw_uuid, send}
use io_react_native_wallet_i.Promise.Steps.{step, lift-eq, >>=-eq-returned}
use io_react_native_wallet_i.Http.{issuer_response, has_status_or_throw}
use io_react_native_wallet_i.Http.Checked.{has_status_or_throw-eq-ok}
use io_react_native_wallet_i.Http.Answered.{IsAnswered, read_answer-IsAnswered}
use io_react_native_wallet_i.Par.{form_request}
use io_react_native_wallet_i.FormPost.{FormPostJwt, get_jwt_from_form_post}
use io_react_native_wallet_i.Presentation.{RequestObject}
use io_react_native_wallet_i.Credential.Select.{AuthorizationResult, parse_authorization_response}
use io_react_native_wallet_i.Credential.Authorize.{
  get, wp_token, authz_response_payload, checked_response_uri, read_form_post, post_response,
  complete_user_authorization_with_form_post_jwt_mode,
}

abbrev page_request : String → Request
page_request uri = record { url = uri; method = "GET"; headers = []; body = none }

-- A page that was fetched with status 200 holds a form with a token whose payload is the result.
pub record IsRead (H : Host) (uri : String) (r : AuthorizationResult) (before after : World)
    : Type 0 where
  pub response : Response
  pub found : FormPostJwt
  pub answered : H.fetch before.sent (page_request uri) ≡ ok response
  pub has_status : response.status ≡ 200
  pub in_form : get_jwt_from_form_post H response.text ≡ ok found
  pub parsed : parse_authorization_response H found.decoded_jwt.payload ≡ ok r
  pub sent : after.sent ≡ page_request uri ∷ before.sent

-- Where each credential stands in the response.
abbrev pid_descriptor : Value
pid_descriptor = obj (
    ("id", Value.string "PersonIdentificationData")
    ∷ ("path", Value.string "$.vp_token[0].vp")
    ∷ ("format", Value.string "vc+sd-jwt")
    ∷ [])

abbrev wia_descriptor : Value
wia_descriptor = obj (
    ("id", Value.string "WalletAttestation")
    ∷ ("path", Value.string "$.vp_token[1].vp")
    ∷ ("format", Value.string "jwt")
    ∷ [])

-- Both credentials are presented for the nonce and the audience of the request object, the PID first,
-- and the result is read from the page that the answer names.
pub record IsPresented (H : Host) (object : RequestObject) (wia_ctx pid_ctx : CryptoContext)
    (pid attestation : String) (r : AuthorizationResult) (before after : World) : Type 0 where
  pub wia_jti : String
  pub wia_token : String
  pub pid_jti : String
  pub pid_token : String
  pub definition_id : String
  pub id : String
  pub body : Value
  pub uri : String
  pub middle : World
  pub wia_signed :
      H.jwt_sign wia_ctx (record {
        protected_header = ("alg", Value.string "ES256") ∷ ("typ", Value.string "JWT") ∷ [];
        payload =
            ("vp", Value.string attestation)
            ∷ ("jti", Value.string wia_jti)
            ∷ ("nonce", Value.string object.nonce)
            ∷ [];
        audience = some object.response_uri;
        issuer = none;
        issued_at = true;
        expiration_time = some (Value.string "5m");
      })
      ≡ ok wia_token
  pub pid_signed :
      H.jwt_sign pid_ctx (record {
        protected_header = ("alg", Value.string "ES256") ∷ ("typ", Value.string "JWT") ∷ [];
        payload =
            ("vp", Value.string pid)
            ∷ ("jti", Value.string pid_jti)
            ∷ ("nonce", Value.string object.nonce)
            ∷ [];
        audience = some object.response_uri;
        issuer = none;
        issued_at = true;
        expiration_time = some (Value.string "5m");
      })
      ≡ ok pid_token
  pub posted :
      IsAnswered H 200
        (record {
          url = object.response_uri;
          method = "POST";
          headers = ("Content-Type", "application/x-www-form-urlencoded") ∷ [];
          body = some (
              H.search_params (
                (
                  "response",
                  H.encode_base64 (
                      H.json_stringify (
                        obj (
                          ("state", Value.string object.state)
                          ∷ (
                            "presentation_submission",
                            obj (
                                ("definition_id", Value.string definition_id)
                                ∷ ("id", Value.string id)
                                ∷ ("descriptor_map", arr (pid_descriptor ∷ wia_descriptor ∷ []))
                                ∷ []),
                          )
                          ∷ ("vp_token", arr (Value.string pid_token ∷ Value.string wia_token ∷ []))
                          ∷ []))),
                )
                ∷ []));
        })
        body
        before
        middle
  pub has_uri : checked_response_uri H body ≡ ok uri
  pub read : IsRead H uri r middle after

module _ (H : Host) where
  read_form_post-IsRead :
      (uri : String) (w : World) {r : AuthorizationResult} {w' : World}
      → read_form_post H uri w ≡ (ok r, w')
      → IsRead H uri r w w'
  unfolding read_form_post send
  read_form_post-IsRead uri w h =
      let w1 = record w { sent = get H uri ∷ w.sent } in
      let (response, e1, h1) = step (H.fetch w.sent (get H uri)) _ w1 h in
      let (checked, e2, h2) =
        step (has_status_or_throw H 200 (issuer_response H) response) _ w1 h1 in
      let (same, has_status) = has_status_or_throw-eq-ok H 200 (issuer_response H) response e2 in
      let (found, e3, h3) = step (get_jwt_from_form_post H checked.text) _ w1 h2 in
      let (e4, e5) = lift-eq (parse_authorization_response H found.decoded_jwt.payload) w1 h3 in
      record {
        response = response;
        found = found;
        answered = e1;
        has_status = has_status;
        in_form = ap (λ (v : Response). get_jwt_from_form_post H v.text) same ∙ e3;
        parsed = e4;
        sent = sym (ap (λ (v : World). v.sent) e5);
      }

  -- If completeUserAuthorizationWithFormPostJwtMode returns, the attestation and the PID were each
  -- signed with the key of its own context, with the nonce of the request object and for its
  -- response uri as the audience; both were posted to the response uri with the state, the PID
  -- first among the tokens and in the descriptors; the answer, of status 200, named a page; and
  -- the result is the payload of the token in the form of that page.
  pub complete_user_authorization-IsPresented :
      (object : RequestObject) (wia_ctx pid_ctx : CryptoContext) (pid attestation : String)
      (w : World) {r : AuthorizationResult} {w' : World}
      → complete_user_authorization_with_form_post_jwt_mode H object wia_ctx pid_ctx pid attestation
          w
        ≡ (ok r, w')
      → IsPresented H object wia_ctx pid_ctx pid attestation r w w'
  unfolding complete_user_authorization_with_form_post_jwt_mode post_response draw_uuid
  complete_user_authorization-IsPresented object wia_ctx pid_ctx pid attestation w h =
      let w1 = record w { drawn = w.drawn + 1 } in
      let (wia_token, e1, h1) =
        step (H.jwt_sign wia_ctx (wp_token H attestation (H.uuid w.drawn) object)) _ w1 h in
      let w2 = record w { drawn = w.drawn + 1 + 1 } in
      let (pid_token, e2, h2) =
        step (H.jwt_sign pid_ctx (wp_token H pid (H.uuid (w.drawn + 1)) object)) _ w2 h1 in
      let w4 = record w { drawn = w.drawn + 1 + 1 + 1 + 1 } in
      let definition_id = H.uuid (w.drawn + 1 + 1) in
      let id = H.uuid (w.drawn + 1 + 1 + 1) in
      let payload = authz_response_payload H object definition_id id pid_token wia_token in
      let (uri, middle, e3, h3) =
        >>=-eq-returned (post_response H object.response_uri payload) (read_form_post H) w4 h2 in
      let (body, posted, e4) =
        read_answer-IsAnswered H 200 (issuer_response H)
          (form_request H object.response_uri [] (("response", payload) ∷ []))
          (checked_response_uri H) w4 e3 in
      record {
        wia_jti = H.uuid w.drawn;
        wia_token = wia_token;
        pid_jti = H.uuid (w.drawn + 1);
        pid_token = pid_token;
        definition_id = definition_id;
        id = id;
        body = body;
        uri = uri;
        middle = middle;
        wia_signed = e1;
        pid_signed = e2;
        posted = record {
          response = posted.response;
          answered = posted.answered;
          has_status = posted.has_status;
          has_body = posted.has_body;
          sent = posted.sent;
        };
        has_uri = e4;
        read = read_form_post-IsRead uri middle h3;
      }
