-- ===== src/Credential/Parse/Attributes.antt =====
-- Which credentials parse, and the attributes that come out.
use io_react_native_wallet_i.Base.{
  ◌≡◌, refl, sym, ◌∙◌, ap, ◌⊎◌, inl, inr, String, Bool, true, false, not, Option, none, some, List,
  [], ◌∷◌, ◌==◌, ◌||◌, map, filter, contains, if◌then◌else◌, arith, All, eq_iff, or_else,
  Bool-cases,
}
use io_react_native_wallet_i.Base.Dict.{
  Dict, lookup, spread, from_entries, keys, last_of, lookup-spread, lookup-from_entries,
  last_of-from_entries, contains-keys,
}
use io_react_native_wallet_i.Errors.Result.{
  ok, guard, from_option, >>=-eq-ok, guard-eq-ok, from_option-eq-ok, ok-injective,
}
use io_react_native_wallet_i.SdJwt.Types.{Disclosure}
use io_react_native_wallet_i.SdJwt.Verify.{Verified}
use io_react_native_wallet_i.Trust.Types.{ClaimMetadata, SupportedCredentialMetadata}
use io_react_native_wallet_i.Credential.Parse.{
  Attribute, defined_attribute, undefined_attribute, defined_values, undefined_values,
  attrs_not_in_disclosures, is_disclosed, is_empty, parse_credential_sd_jwt,
}

abbrev pub change {ℓ κ} : {A : Type ℓ} {B : Type κ} → (A → B) → Option A → Option B
change f none = none
change f (some a) = some (f a)

last_of-map :
    {V W : Type 0} (f : String → V → W) (k : String) (d : Dict V)
    → last_of k (map (λ e. (e.0, f e.0 e.1)) d) ≡ change (f k) (last_of k d)
unfolding last_of
last_of-map f k [] = refl
last_of-map f k ((j, v) ∷ d) = ground (arith, eq_iff j k, last_of-map f k d)

-- The last disclosure of a name.
abbrev pub last_named : String → List Disclosure → Option Disclosure
last_named k [] = none
last_named k (d ∷ ds) = or_else (last_named k ds) (if d.name == k then some d else none)

last_of-undefined :
    (k : String) (ks : List String) (ds : List Disclosure)
    → last_of k (
        map
          (λ (d : Disclosure). (d.name, undefined_attribute d))
          (filter (λ (d : Disclosure). not (contains ks d.name)) ds))
      ≡ (if contains ks k then none else change undefined_attribute (last_named k ds))
unfolding last_of
last_of-undefined k ks [] = ground arith
last_of-undefined k ks (d ∷ ds) = ground (arith, eq_iff d.name k, last_of-undefined k ks ds)

-- What a parsed credential holds at a key: the last definition of the key with the value of its
-- first disclosure, or else, where undefined attributes are included, the last disclosure of that
-- name.
abbrev pub attribute_at :
    List (String × ClaimMetadata) → List Disclosure → Bool → String → Option Attribute
attribute_at claims ds include_undefined k = elim (last_of k claims) [
  | some definition ↦ some (defined_attribute ds k definition)
  | none ↦ if include_undefined then change undefined_attribute (last_named k ds) else none
]

lookup-defined_values :
    (claims : List (String × ClaimMetadata)) (ds : List Disclosure) (k : String)
    → lookup k (defined_values claims ds) ≡ change (defined_attribute ds k) (last_of k claims)
lookup-defined_values claims ds k =
    lookup-from_entries k (map (λ e. (e.0, defined_attribute ds e.0 e.1)) claims)
    ∙ last_of-map (defined_attribute ds) k claims

abbrev credential_attributes :
    List (String × ClaimMetadata) → List Disclosure → Bool → Dict Attribute
credential_attributes claims ds include_undefined =
    if include_undefined
    then spread (defined_values claims ds) (undefined_values (defined_values claims ds) ds)
    else defined_values claims ds

lookup-attributes :
    (claims : List (String × ClaimMetadata)) (ds : List Disclosure) (include_undefined : Bool)
    (k : String)
    → lookup k (
        if include_undefined
        then spread (defined_values claims ds) (undefined_values (defined_values claims ds) ds)
        else defined_values claims ds)
      ≡ attribute_at claims ds include_undefined k
lookup-attributes claims ds false k = lookup-defined_values claims ds k ∙ ground arith
lookup-attributes claims ds true k =
    let defined = defined_values claims ds in
    let undefined =
      map (λ (d : Disclosure). (d.name, undefined_attribute d))
        (filter (λ (d : Disclosure). not (contains (keys defined) d.name)) ds) in
    lookup-spread k defined (from_entries undefined)
    ∙ ground (
      arith,
      last_of-from_entries k undefined,
      last_of-undefined k (keys defined) ds,
      contains-keys k defined,
      lookup-defined_values claims ds k,
    )

pub record IsParsed (supported : Dict SupportedCredentialMetadata) (credential : Verified)
    (ignore_missing include_undefined : Bool) (attrs : Dict Attribute) : Type 0 where
  pub subject : SupportedCredentialMetadata
  pub is_supported : lookup credential.sd_jwt.payload.vct supported ≡ some subject
  pub has_format : (subject.format == credential.sd_jwt.header.typ) ≡ true
  pub has_claims :
      (ignore_missing ≡ true)
      ⊎ All (λ e. is_disclosed credential.disclosures e.0 ≡ true) subject.claims
  pub attributes :
      (k : String)
      → lookup k attrs ≡ attribute_at subject.claims credential.disclosures include_undefined k

is_empty-All :
    (claims : List (String × ClaimMetadata)) (ds : List Disclosure)
    → is_empty (attrs_not_in_disclosures claims ds) ≡ true
    → All (λ e. is_disclosed ds e.0 ≡ true) claims
is_empty-All [] ds h = tt
is_empty-All (e ∷ claims) ds h = elim (Bool-cases (is_disclosed ds e.0)) [
  | inl here ↦ (here, is_empty-All claims ds (ground (arith)))
  | inr lacking ↦ absurd (ground (arith))
]

All-is_empty :
    (claims : List (String × ClaimMetadata)) (ds : List Disclosure)
    → All (λ e. is_disclosed ds e.0 ≡ true) claims
    → is_empty (attrs_not_in_disclosures claims ds) ≡ true
All-is_empty [] ds h = refl
All-is_empty (e ∷ claims) ds (here, later) = rw here (All-is_empty claims ds later)

or-cases : (a b : Bool) → (a || b) ≡ true → (a ≡ true) ⊎ (b ≡ true)
or-cases true b h = inl refl
or-cases false b h = inr h

-- If parsing succeeds, the issuer supports the credential's type in its format, every claim of the
-- type is disclosed or missing ones are ignored, and at each key the result holds the attribute of
-- the claim with the value of its first disclosure, or where undefined attributes are included and
-- the type has no such claim, the last disclosure of that name, and nothing at the other keys.
pub parse_credential-IsParsed :
    (supported : Dict SupportedCredentialMetadata) (credential : Verified)
    (ignore_missing include_undefined : Bool) (attrs : Dict Attribute)
    → parse_credential_sd_jwt supported credential ignore_missing include_undefined ≡ ok attrs
    → IsParsed supported credential ignore_missing include_undefined attrs
unfolding parse_credential_sd_jwt
parse_credential-IsParsed supported credential ignore_missing include_undefined attrs h =
    let (subject, h1, r1) = >>=-eq-ok (from_option (lookup _ supported) _) _ h in
    let (u, h2, r2) = >>=-eq-ok (guard (subject.format == _) _) _ r1 in
    let (v, h3, r3) = >>=-eq-ok (guard (_ || ignore_missing) _) _ r2 in
    record {
      subject = subject;
      is_supported = from_option-eq-ok _ _ h1;
      has_format = guard-eq-ok _ _ h2;
      has_claims = elim (or-cases _ ignore_missing (guard-eq-ok _ _ h3)) [
        | inl all ↦ inr (is_empty-All subject.claims credential.disclosures all)
        | inr ignored ↦ inl ignored
      ];
      attributes = λ k.
          ap (lookup k) (sym (ok-injective r3))
          ∙ lookup-attributes subject.claims credential.disclosures include_undefined k;
    }

or_true : (a : Bool) → (a || true) ≡ true
or_true a = ground arith

has-claims :
    (claims : List (String × ClaimMetadata)) (ds : List Disclosure) (ignore_missing : Bool)
    → (ignore_missing ≡ true) ⊎ All (λ e. is_disclosed ds e.0 ≡ true) claims
    → (is_empty (attrs_not_in_disclosures claims ds) || ignore_missing) ≡ true
has-claims claims ds ignore_missing (inl h) = rw h (or_true _)
has-claims claims ds ignore_missing (inr h) = rw (All-is_empty claims ds h) refl

-- Parsing succeeds on every credential whose type the issuer supports, in the format that the
-- issuer names, if each claim of the type is disclosed or missing ones are ignored.
pub parse_credential_succeeds :
    (supported : Dict SupportedCredentialMetadata) (credential : Verified)
    (ignore_missing include_undefined : Bool) (subject : SupportedCredentialMetadata)
    → lookup credential.sd_jwt.payload.vct supported ≡ some subject
    → (subject.format == credential.sd_jwt.header.typ) ≡ true
    → ((ignore_missing ≡ true)
        ⊎ All (λ e. is_disclosed credential.disclosures e.0 ≡ true) subject.claims)
    → (attrs : Dict Attribute) × (parse_credential_sd_jwt supported credential ignore_missing
          include_undefined
        ≡ ok attrs)
unfolding parse_credential_sd_jwt
parse_credential_succeeds supported credential ignore_missing include_undefined subject h1 h2 h3 = (
  credential_attributes subject.claims credential.disclosures include_undefined,
  rw (h1, h2, has-claims subject.claims credential.disclosures ignore_missing h3) refl,
)
