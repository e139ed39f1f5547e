-- ===== src/Credential/Select/Choices.antt =====
-- Which credential definition is selected.
use io_react_native_wallet_i.Base.{
  ◌≡◌, refl, ◌∙◌, sym, ap, inl, inr, String, Bool, true, Option, none, some, List, [], ◌∷◌, filter,
  map, includes, contains, is_some, arith, eq_iff, Bool-cases,
}
use io_react_native_wallet_i.Base.Dict.{Dict, lookup, keys, contains-keys}
use io_react_native_wallet_i.Errors.Result.{ok, ok-injective}
use io_react_native_wallet_i.Trust.Types.{SupportedCredentialMetadata}
use io_react_native_wallet_i.Trust.Entities.{IssuerMetadata}
use io_react_native_wallet_i.Credential.Obtain.{AuthorizationDetail}
use io_react_native_wallet_i.Credential.Select.{
  candidates, detail_for, format_of, first_detail, select_credential_definition,
}

-- Some key of the issuer's configurations contains the type, and the definition has its format.
pub record IsSelected (conf : IssuerMetadata) (credential_type : String) (d : AuthorizationDetail)
    : Type 0 where
  pub key : String
  pub supported : SupportedCredentialMetadata
  pub configured :
      lookup key conf.openid_credential_issuer.credential_configurations_supported ≡ some supported
  pub matches : includes key credential_type ≡ true
  pub has_format : d.format ≡ supported.format
  pub has_id : d.credential_configuration_id ≡ credential_type

filter_head :
    (p : String → Bool) (xs : List String) (x : String) (rest : List String)
    → filter p xs ≡ x ∷ rest
    → (p x ≡ true) × (contains xs x ≡ true)
unfolding contains
filter_head p [] x rest h = cc
filter_head p (y ∷ ys) x rest h = elim (Bool-cases (p y)) [
  | inl holds ↦ ground (arith, eq_iff y x)
  | inr fails ↦ let (h1, h2) = filter_head p ys x rest (ground arith) in ground (arith)
]

is_some-eq : {A : Type 0} (o : Option A) → is_some o ≡ true → (a : A) × (o ≡ some a)
is_some-eq none h = cc
is_some-eq (some a) h = (a, refl)

format_of-eq :
    (configurations : Dict SupportedCredentialMetadata) (key : String)
    {c : SupportedCredentialMetadata}
    → lookup key configurations ≡ some c
    → format_of configurations key ≡ c.format
unfolding format_of
format_of-eq configurations key h = rw (h, format_of) refl

first_detail-eq-ok :
    (conf : IssuerMetadata) (credential_type : String) (d : AuthorizationDetail) (cs : List String)
    → candidates conf.openid_credential_issuer.credential_configurations_supported credential_type
      ≡ cs
    → first_detail credential_type (
        map
          (detail_for conf.openid_credential_issuer.credential_configurations_supported
            credential_type)
          cs)
      ≡ ok d
    → IsSelected conf credential_type d
unfolding first_detail detail_for
first_detail-eq-ok conf credential_type d [] e h = cc
first_detail-eq-ok conf credential_type d (key ∷ cs) e h =
    let configurations = conf.openid_credential_issuer.credential_configurations_supported in
    let (matches, contained) =
      filter_head (λ k. includes k credential_type) (keys configurations) key cs e in
    let (supported, configured) =
      is_some-eq (lookup key configurations) (sym (contains-keys key configurations) ∙ contained) in
    record {
      key = key;
      supported = supported;
      configured = configured;
      matches = matches;
      has_format =
          ap (λ (x : AuthorizationDetail). x.format) (sym (ok-injective h))
          ∙ format_of-eq configurations key configured;
      has_id =
          ap (λ (x : AuthorizationDetail). x.credential_configuration_id) (sym (ok-injective h));
    }

-- A definition is only selected with the requested type as its id and with the format of a
-- configuration whose key contains that type.
pub select_credential_definition-IsSelected :
    (conf : IssuerMetadata) (credential_type : String) (d : AuthorizationDetail)
    → select_credential_definition conf credential_type ≡ ok d
    → IsSelected conf credential_type d
unfolding select_credential_definition
select_credential_definition-IsSelected conf credential_type d h =
    first_detail-eq-ok conf credential_type d _ refl h
