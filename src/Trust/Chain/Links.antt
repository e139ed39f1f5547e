-- ===== src/Trust/Chain/Links.antt =====
-- The chain that `validateTrustChain` walks by index, read as a list: each element against the next.
use io_react_native_wallet_i.Base.{◌≡◌, refl, ap, ◌∙◌, sym, ◌≢◌, ◌↔◌, ℕ, suc, ◌+◌, ◌-◌, String}
use io_react_native_wallet_i.Base.{Bool, true, false, some, List, [], ◌∷◌, get_elem?}
use io_react_native_wallet_i.Base.{length, find?, ◌==◌, if◌then◌else◌, same_number, arith}
use io_react_native_wallet_i.Base.{eq_iff}
use mathlib.Core.Path.{subst}
use io_react_native_wallet_i.Jwk.{Jwk}
use io_react_native_wallet_i.Host.{Host, DecodedJwt, one_key}
use io_react_native_wallet_i.Errors.{io_wallet_error}
use io_react_native_wallet_i.Errors.Result.{
  Result, ok, err, ◌>>=◌, map_result, >>=-eq-ok, ok-injective, >>=-of_ok, map_result-eq-ok,
}
use io_react_native_wallet_i.Promise.{
  Settled, later, collect, promise_all, collect-cons, collect-nil, promise_all-eq-ok,
  promise_all_of_collect,
}
use io_react_native_wallet_i.Trust.Entities.{TrustAnchorEntityConfiguration}
use io_react_native_wallet_i.Trust.Chain.{
  Element, Shape, first_element, middle_element, last_element, same_kid, read_element,
  select_token_shape, token_at, select_kid, select_keys, verify, verifications,
  validate_trust_chain,
}

-- From the index on, the chain is the given list.
pub record At (chain : List String) (i : ℕ) (tokens : List String) : Type 0 where
  pub elems : (j : ℕ) → get_elem? chain (i + j) ≡ get_elem? tokens j
  pub len : length chain ≡ i + length tokens

pub At-start : (chain : List String) → At chain 0 chain
At-start chain = record { elems = λ j. ap (get_elem? chain) (omega arith); len = omega arith }

At-next :
    (chain : List String) (i : ℕ) (t : String) (ts : List String)
    → At chain i (t ∷ ts)
    → At chain (suc i) ts
At-next chain i t ts a = record {
  elems = λ j. ap (get_elem? chain) (omega arith) ∙ a.elems (suc j);
  len = omega (arith, a.len);
}

-- The shape of an element, from whether it is the first and what stands behind it.
abbrev pub position_shape : Bool → List String → Shape
position_shape true rest = first_element
position_shape false [] = last_element
position_shape false (_ ∷ _) = middle_element

shape-position :
    (chain : List String) (i : ℕ) (t : String) (ts : List String)
    → At chain i (t ∷ ts)
    → select_token_shape chain i ≡ position_shape (same_number i 0) ts
unfolding select_token_shape
shape-position chain i t [] a = ground (arith, a.len)
shape-position chain i t (n ∷ ts) a = ground (arith, a.len)

not_first : (i : ℕ) → same_number (suc i) 0 ≡ false
not_first i = ground arith

shape-next :
    (chain : List String) (i : ℕ) (t : String) (ts : List String)
    → At chain (suc i) (t ∷ ts)
    → select_token_shape chain (suc i) ≡ position_shape false ts
shape-next chain i t ts a =
    shape-position chain (suc i) t ts a ∙ ap (λ b. position_shape b ts) (not_first i)

At-index :
    (chain : List String) (i : ℕ) (t : String) (ts : List String)
    → At chain i (t ∷ ts)
    → get_elem? chain i ≡ some t
At-index chain i t ts a = ap (get_elem? chain) (omega arith) ∙ a.elems 0

abbrev not_empty : String → String → Result String
not_empty message token = if token == "" then err (io_wallet_error message) else ok token

not_empty-eq-ok :
    (message t : String) {u : String} → not_empty message t ≡ ok u → (t ≢ "") × (t ≡ u)
not_empty-eq-ok message t h = ground (arith, eq_iff t "")

not_empty_ok : (message t : String) → t ≢ "" → not_empty message t ≡ ok t
not_empty_ok message t h = ground (arith, eq_iff t "")

token_at-eq :
    (message : String) (chain : List String) (i : ℕ) (t : String) (ts : List String)
    → At chain i (t ∷ ts)
    → token_at message chain i ≡ not_empty message t
unfolding token_at
token_at-eq message chain i t ts a = rw (At-index chain i t ts a, token_at) refl

module _ (H : Host) (anchor : TrustAnchorEntityConfiguration) where
  kid_of : Shape → String → Result String
  kid_of shape t = not_empty "Cannot select kid: empty token" t >>= λ token.
      map_result (λ (e : Element). e.kid) (read_element H shape token)

  keys_of : List String → Result (List Jwk)
  keys_of [] = ok anchor.jwks
  keys_of (n ∷ rest) = not_empty "Cannot select keys: empty nextToken" n >>= λ token.
      map_result (λ (e : Element). e.keys) (read_element H (position_shape false rest) token)

  select_kid-eq :
      (chain : List String) (i : ℕ) (t : String) (ts : List String)
      → At chain i (t ∷ ts)
      → select_kid H chain i ≡ kid_of (position_shape (same_number i 0) ts) t
  unfolding select_kid kid_of
  select_kid-eq chain i t ts a =
      rw (token_at-eq _ chain i t ts a, shape-position chain i t ts a) refl

  select_keys-eq :
      (chain : List String) (i : ℕ) (t : String) (ts : List String)
      → At chain i (t ∷ ts)
      → select_keys H anchor chain i ≡ keys_of ts
  unfolding select_keys keys_of
  select_keys-eq chain i t [] a = ground (arith, a.len)
  select_keys-eq chain i t (n ∷ ts) a =
      let next = At-next chain i t (n ∷ ts) a in
      let more : same_number i (length chain - 1) ≡ false = ground (arith, a.len) in
      rw
        (
          more,
          token_at-eq "Cannot select keys: empty nextToken" chain (suc i) n ts next,
          shape-next chain i n ts next,
        )
        refl

  checks : Bool → List String → Result (List (Settled DecodedJwt))
  checks first [] = ok []
  checks first (t ∷ ts) = kid_of (position_shape first ts) t >>= λ kid.
      keys_of ts >>= λ keys. checks false ts >>= λ more. ok (verify H t kid keys ∷ more)

  verifications-eq :
      (chain : List String) (i : ℕ) (tokens : List String)
      → At chain i tokens
      → verifications H anchor chain i tokens ≡ checks (same_number i 0) tokens
  unfolding verifications checks
  verifications-eq chain i [] a = refl
  verifications-eq chain i (t ∷ ts) a =
      let rest : verifications H anchor chain (suc i) ts ≡ checks false ts =
        verifications-eq chain (suc i) ts (At-next chain i t ts a)
        ∙ ap (λ b. checks b ts) (not_first i) in
      rw (select_kid-eq chain i t ts a, select_keys-eq chain i t ts a, rest) refl

  whole :
      (t : String) (ts : List String)
      → verifications H anchor (t ∷ ts) 0 (t ∷ ts) ≡ checks true (t ∷ ts)
  whole t ts = verifications-eq (t ∷ ts) 0 (t ∷ ts) (At-start (t ∷ ts))

  -- The keys against which an element is verified: those of the next one, or the anchor's.
  abbrev pub AreKeys : List String → List Jwk → Type 0
  AreKeys [] keys = anchor.jwks ≡ keys
  AreKeys (n ∷ rest) keys =
      (e : Element) × (n ≢ "")
      × (read_element H (position_shape false rest) n ≡ ok e)
      × (e.keys ≡ keys)

  -- A valid element: it is read by its shape, one of the keys has its kid, and the first such key
  -- verifies it with the given result.
  pub record IsLink (first : Bool) (t : String) (rest : List String) (p : DecodedJwt) : Type 0 where
    pub element : Element
    pub keys : List Jwk
    pub key : Jwk
    pub full : t ≢ ""
    pub reads : read_element H (position_shape first rest) t ≡ ok element
    pub keys_eq : AreKeys rest keys
    pub found : find? (same_kid element.kid) keys ≡ some key
    pub signed : H.jwt_verify t (one_key key) ≡ ok p

  abbrev pub Links : Bool → List String → List DecodedJwt → Type 0
  Links first [] [] = Unit
  Links first (t ∷ ts) (p ∷ ps) = IsLink first t ts p × Links false ts ps
  Links first _ _ = ⊥

  kid_of-eq-ok :
      (shape : Shape) (t : String) (kid : String)
      → kid_of shape t ≡ ok kid
      → (e : Element) × (t ≢ "") × (read_element H shape t ≡ ok e) × (e.kid ≡ kid)
  unfolding kid_of
  kid_of-eq-ok shape t kid h =
      let (token, h1, r1) = >>=-eq-ok (not_empty "Cannot select kid: empty token" t) _ h in
      let (full, same) = not_empty-eq-ok _ t h1 in
      let (e, h2, h3) = map_result-eq-ok _ (read_element H shape token) r1 in
      (e, full, ap (read_element H shape) same ∙ h2, h3)

  kid_of_ok :
      (shape : Shape) (t : String) (e : Element)
      → t ≢ ""
      → read_element H shape t ≡ ok e
      → kid_of shape t ≡ ok e.kid
  unfolding kid_of
  kid_of_ok shape t e full h = rw (not_empty_ok _ t full, h) refl

  keys_of-AreKeys : (ts : List String) (keys : List Jwk) → keys_of ts ≡ ok keys → AreKeys ts keys
  unfolding keys_of
  keys_of-AreKeys [] keys h = ok-injective h
  keys_of-AreKeys (n ∷ rest) keys h =
      let (token, h1, r1) = >>=-eq-ok (not_empty "Cannot select keys: empty nextToken" n) _ h in
      let (full, same) = not_empty-eq-ok _ n h1 in
      let shape = position_shape false rest in
      let (e, h2, h3) = map_result-eq-ok _ (read_element H shape token) r1 in
      (e, full, ap (read_element H shape) same ∙ h2, h3)

  AreKeys-keys_of : (ts : List String) (keys : List Jwk) → AreKeys ts keys → keys_of ts ≡ ok keys
  unfolding keys_of
  AreKeys-keys_of [] keys h = ap ok h
  AreKeys-keys_of (n ∷ rest) keys (e, full, h, k) =
      rw (not_empty_ok "Cannot select keys: empty nextToken" n full, h) (ap ok k)

  verify-later :
      (t kid : String) (keys : List Jwk) (p : DecodedJwt)
      → verify H t kid keys ≡ later (ok p)
      → (key : Jwk) × (find? (same_kid kid) keys ≡ some key) × (H.jwt_verify t (one_key key) ≡ ok p)
  unfolding verify
  verify-later t kid keys p h = ground arith

  verify_found :
      (t kid : String) (keys : List Jwk) (key : Jwk)
      → find? (same_kid kid) keys ≡ some key
      → verify H t kid keys ≡ later (H.jwt_verify t (one_key key))
  unfolding verify
  verify_found t kid keys key h = rw (h, verify) refl

  checks-Links :
      (first : Bool) (ts : List String) (ss : List (Settled DecodedJwt)) (ps : List DecodedJwt)
      → checks first ts ≡ ok ss
      → collect ss ≡ ok ps
      → Links first ts ps
  unfolding checks
  checks-Links first [] ss ps h k =
      subst (Links first []) (collect-nil (ap collect (ok-injective h) ∙ k)) tt
  checks-Links first (t ∷ ts) ss ps h k =
      let (kid, h1, r1) = >>=-eq-ok (kid_of (position_shape first ts) t) _ h in
      let (keys, h2, r2) = >>=-eq-ok (keys_of ts) _ r1 in
      let (more, h3, r3) = >>=-eq-ok (checks false ts) _ r2 in
      let k' : collect (verify H t kid keys ∷ more) ≡ ok ps = ap collect (ok-injective r3) ∙ k in
      let (p, rest, v, c, e) = collect-cons (verify H t kid keys) more k' in
      let (element, full, reads, same) = kid_of-eq-ok (position_shape first ts) t kid h1 in
      let (key, found, signed) = verify-later t kid keys p v in
      subst (Links first (t ∷ ts)) e (
        record {
          element = element;
          keys = keys;
          key = key;
          full = full;
          reads = reads;
          keys_eq = keys_of-AreKeys ts keys h2;
          found = ap (λ k. find? (same_kid k) keys) same ∙ found;
          signed = signed;
        },
        checks-Links false ts more rest h3 c,
      )

  Links-checks :
      (first : Bool) (ts : List String) (ps : List DecodedJwt)
      → Links first ts ps
      → (ss : List (Settled DecodedJwt)) × (checks first ts ≡ ok ss) × (collect ss ≡ ok ps)
  unfolding checks collect
  Links-checks first [] [] h = ([], refl, refl)
  Links-checks first [] (_ ∷ _) h = absurd h
  Links-checks first (_ ∷ _) [] h = absurd h
  Links-checks first (t ∷ ts) (p ∷ ps) (l, ls) =
      let (more, h, k) = Links-checks false ts ps ls in
      (
        verify H t l.element.kid l.keys ∷ more,
        rw (kid_of_ok _ t l.element l.full l.reads, AreKeys-keys_of ts l.keys l.keys_eq, h) refl,
        rw (verify_found t l.element.kid l.keys l.key l.found, l.signed, k) refl,
      )

  -- A chain is valid exactly when it is not empty and every element is read by the shape of its
  -- place, and is verified by the first key with its kid among the keys of the next element, the
  -- last one among those of the trust anchor; the result holds the verified tokens in order.
  pub validate_trust_chain_iff :
      (chain : List String) (out : List DecodedJwt)
      → (validate_trust_chain H anchor chain ≡ ok out) ↔ ((chain ≢ []) × Links true chain out)
  unfolding validate_trust_chain
  validate_trust_chain_iff [] out = (λ h. absurd (cc h), λ h. absurd (h.0 refl))
  validate_trust_chain_iff (t ∷ ts) out = (
    (λ h.
        let (ss, h1, k) = >>=-eq-ok (verifications H anchor (t ∷ ts) 0 (t ∷ ts)) _ h in
        (
          (λ e. cc e),
          checks-Links true (t ∷ ts) ss out (sym (whole t ts) ∙ h1) (promise_all-eq-ok ss k),
        )),
    (λ l.
        let (ss, h1, k) = Links-checks true (t ∷ ts) out l.1 in
        >>=-of_ok _ promise_all (whole t ts ∙ h1) ∙ promise_all_of_collect ss k),
  )
