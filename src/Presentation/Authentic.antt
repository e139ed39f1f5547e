-- ===== src/Presentation/Authentic.antt =====
-- Which request objects are accepted.
use io_react_native_wallet_i.Base.{
  ◌≡◌, refl, sym, ap, ◌∙◌, ◌↔◌, String, some, none, find?, List, [], ◌∷◌, Bool-cases, inl, inr,
  true, false, eq_iff, eq_refl, arith, Bool, Option, ◌==◌,
}
use io_react_native_wallet_i.Value.{Value, prop, maybe_string}
use io_react_native_wallet_i.Zod.{parse}
use io_react_native_wallet_i.Jwk.{Jwk}
use io_react_native_wallet_i.Host.{Host, DecodedJwt, one_key}
use io_react_native_wallet_i.Errors.Result.{ok, from_option, >>=-eq-ok, from_option-eq-ok}
use io_react_native_wallet_i.Trust.Types.{RelyingPartyMetadata}
use io_react_native_wallet_i.Presentation.{
  RequestObject, parse_request_object, has_kid, authenticate,
}

-- That the key has the value as its key id; both may be missing.
abbrev pub HasKid : Value → Jwk → Type 0
HasKid v key = maybe_string key.kid ≡ v

-- The first key with the id.
pub data IsFirst (v : Value) (key : Jwk) : List Jwk → Type 0 where
  here : {keys : List Jwk} → HasKid v key → IsFirst v key (key ∷ keys)
  later : {j : Jwk} {keys : List Jwk} → ¬ HasKid v j → IsFirst v key keys → IsFirst v key (j ∷ keys)

text-holds :
    (s : String) (o : Option String)
    → ◌≡◌ {A = Bool} (elim o [ none ↦ false | some k ↦ k == s ]) true
    → maybe_string o ≡ Value.string s
text-holds s none h = cc
text-holds s (some k) h = ap Value.string (ground (arith, eq_iff k s))

missing-holds :
    (o : Option String)
    → ◌≡◌ {A = Bool} (elim o [ none ↦ true | some k ↦ false ]) true
    → maybe_string o ≡ Value.undefined
missing-holds none h = refl
missing-holds (some k) h = cc

has_kid-holds : (v : Value) (key : Jwk) → has_kid v key ≡ true → HasKid v key
has_kid-holds (Value.string s) key h = text-holds s key.kid h
has_kid-holds Value.undefined key h = missing-holds key.kid h
has_kid-holds _ key h = cc

HasKid-has_kid : (v : Value) (key : Jwk) → HasKid v key → has_kid v key ≡ true
HasKid-has_kid v key h = rw⁻¹ h (own key.kid key refl)
  where
    own : (o : Option String) (k : Jwk) → k.kid ≡ o → has_kid (maybe_string o) k ≡ true
    own none k e = rw e refl
    own (some s) k e = rw e (eq_refl s)

same-of_some : {a b : Jwk} → some a ≡ some b → a ≡ b
same-of_some {a} h = ap (λ o. elim o [ none ↦ a | some x ↦ x ]) h

find-IsFirst :
    (v : Value) (keys : List Jwk) {key : Jwk}
    → find? (has_kid v) keys ≡ some key
    → IsFirst v key keys
find-IsFirst v [] h = cc
find-IsFirst v (j ∷ keys) {key} h = elim (Bool-cases (has_kid v j)) [
  | inl holds ↦
      let same = same-of_some (sym (rw holds refl) ∙ h) in
      rw⁻¹ same (here (has_kid-holds v j holds))
  | inr fails ↦
      later (λ has. cc (HasKid-has_kid v j has)) (find-IsFirst v keys (sym (rw fails refl) ∙ h))
]

IsFirst-find :
    (v : Value) (keys : List Jwk) {key : Jwk}
    → IsFirst v key keys
    → find? (has_kid v) keys ≡ some key
IsFirst-find v [] first = elim first [ ]
IsFirst-find v (j ∷ keys) (here has) = rw (HasKid-has_kid v j has) refl
IsFirst-find v (j ∷ keys) (later misses first) = elim (Bool-cases (has_kid v j)) [
  | inl holds ↦ absurd (misses (has_kid-holds v j holds))
  | inr fails ↦ rw fails (IsFirst-find v keys first)
]

module _ (H : Host) where
  pub record IsAuthentic (rp : RelyingPartyMetadata) (token : String) (r : RequestObject)
      : Type 0 where
    pub jwt : DecodedJwt
    pub key : Jwk
    pub signed_jwt : DecodedJwt
    pub decodes : H.jwt_decode token ≡ ok jwt
    pub key_found : IsFirst (prop "kid" jwt.protected_header) key rp.jwks
    pub signed : H.jwt_verify token (one_key key) ≡ ok signed_jwt
    pub parses : parse H.zod "RequestObject" (parse_request_object H.zod) jwt.payload ≡ ok r

  -- A token is accepted as a request object exactly when it decodes, the first key of the relying
  -- party whose key id is that of its header (both ids may be missing) verifies it, and its
  -- payload parses to the result.
  pub authenticate_iff :
      (rp : RelyingPartyMetadata) (token : String) (r : RequestObject)
      → (authenticate H rp token ≡ ok r) ↔ IsAuthentic rp token r
  unfolding authenticate
  authenticate_iff rp token r = (
    λ h.
        let (jwt, h1, r1) = >>=-eq-ok (H.jwt_decode token) _ h in
        let (key, h2, r2) =
          >>=-eq-ok (from_option (find? (has_kid (prop "kid" jwt.protected_header)) rp.jwks) _) _
            r1 in
        let (s, h3, r3) = >>=-eq-ok (H.jwt_verify token (one_key key)) _ r2 in
        record {
          jwt = jwt;
          key = key;
          signed_jwt = s;
          decodes = h1;
          key_found =
              find-IsFirst (prop "kid" jwt.protected_header) rp.jwks (from_option-eq-ok _ _ h2);
          signed = h3;
          parses = r3;
        },
    λ a.
        rw
          (
            a.decodes,
            IsFirst-find (prop "kid" a.jwt.protected_header) rp.jwks a.key_found,
            a.signed,
          )
          a.parses,
  )
