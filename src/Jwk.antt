-- ===== src/Jwk.antt =====
-- The key type and its base64 fix (src/utils/jwk.ts).
use io_react_native_wallet_i.Base.{
  String, Bool, Option, none, some, List, [], ◌∷◌, ◌==◌, if◌then◌else◌,
}
use io_react_native_wallet_i.Value.{
  Value, prop, obj, maybe_string, maybe_strings, undefined, boolean, string,
}
use io_react_native_wallet_i.Zod.{Zod, Schema, ◌>>=◌}

pub record Jwk : Type 0 where
  pub alg : Option String
  pub crv : Option String
  pub d : Option String
  pub dp : Option String
  pub dq : Option String
  pub e : Option String
  pub ext : Option Bool
  pub k : Option String
  pub key_ops : Option (List String)
  pub kid : Option String
  pub kty : String
  pub n : Option String
  pub p : Option String
  pub q : Option String
  pub qi : Option String
  pub usage : Option String
  pub x : Option String
  pub y : Option String
  pub x5c : Option (List String)
  pub x5t : Option String
  pub x5t_s256 : Option String
  pub x5u : Option String

module _ (z : Zod) where
  text : String → Value → Option (Option String)
  text k v = z.optional z.string (prop k v)

  texts : String → Value → Option (Option (List String))
  texts k v = z.optional (z.array z.string) (prop k v)

  unfoldable pub parse_jwk : Schema Jwk
  unfolding text texts
  parse_jwk v = do
    o ← z.object v
    alg ← text "alg" o
    crv ← text "crv" o
    d ← text "d" o
    dp ← text "dp" o
    dq ← text "dq" o
    e ← text "e" o
    ext ← z.optional z.boolean (prop "ext" o)
    k ← text "k" o
    key_ops ← texts "key_ops" o
    kid ← text "kid" o
    kty ← z.union (z.literal "RSA") (z.literal "EC") (prop "kty" o)
    n ← text "n" o
    p ← text "p" o
    q ← text "q" o
    qi ← text "qi" o
    usage ← text "use" o
    x ← text "x" o
    y ← text "y" o
    x5c ← texts "x5c" o
    x5t ← text "x5t" o
    x5t_s256 ← text "x5t#S256" o
    x5u ← text "x5u" o
    some (record {
      alg = alg;
      crv = crv;
      d = d;
      dp = dp;
      dq = dq;
      e = e;
      ext = ext;
      k = k;
      key_ops = key_ops;
      kid = kid;
      kty = kty;
      n = n;
      p = p;
      q = q;
      qi = qi;
      usage = usage;
      x = x;
      y = y;
      x5c = x5c;
      x5t = x5t;
      x5t_s256 = x5t_s256;
      x5u = x5u;
    })

module _ (remove_padding : String → String) where
  -- `...(v ? { v: removePadding(v) } : {})`: an empty text is dropped, like a missing one.
  fix_coordinate : Option String → Option String
  fix_coordinate none = none
  fix_coordinate (some s) = if s == "" then none else some (remove_padding s)

  unfoldable pub fix_base64_encoding_on_key : Jwk → Jwk
  unfolding fix_coordinate
  fix_base64_encoding_on_key key = record key {
    x = fix_coordinate key.x;
    y = fix_coordinate key.y;
    e = fix_coordinate key.e;
    n = fix_coordinate key.n;
  }

-- A key as a JSON value, where a missing property is `undefined`.
unfoldable pub jwk_value : Jwk → Value
jwk_value key = obj (
    ("alg", maybe_string key.alg)
    ∷ ("crv", maybe_string key.crv)
    ∷ ("d", maybe_string key.d)
    ∷ ("dp", maybe_string key.dp)
    ∷ ("dq", maybe_string key.dq)
    ∷ ("e", maybe_string key.e)
    ∷ ("ext", elim key.ext [ none ↦ undefined | some b ↦ boolean b ])
    ∷ ("k", maybe_string key.k)
    ∷ ("key_ops", maybe_strings key.key_ops)
    ∷ ("kid", maybe_string key.kid)
    ∷ ("kty", string key.kty)
    ∷ ("n", maybe_string key.n)
    ∷ ("p", maybe_string key.p)
    ∷ ("q", maybe_string key.q)
    ∷ ("qi", maybe_string key.qi)
    ∷ ("use", maybe_string key.usage)
    ∷ ("x", maybe_string key.x)
    ∷ ("y", maybe_string key.y)
    ∷ ("x5c", maybe_strings key.x5c)
    ∷ ("x5t", maybe_string key.x5t)
    ∷ ("x5t#S256", maybe_string key.x5t_s256)
    ∷ ("x5u", maybe_string key.x5u)
    ∷ [])
