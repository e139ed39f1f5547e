-- ===== src/Base/Dict.antt =====
-- A JavaScript object used as a record of values: its entries in the order of `Object.entries`.
use Prim.Native.String.{String}
use mathlib.Core.Path.{◌≡◌, refl, ◌∙◌}
use mathlib.Core.Option.{Option, none, some}
use mathlib.Core.List.{List, [], ◌∷◌, map}
use native.Mathlib.Omega.{arith}
use text.Mathlib.Text.{◌==◌}
use text.Mathlib.TextEquality.{eq_iff}
use io_react_native_wallet_i.Base.Tests.{if◌then◌else◌, or_else, is_some}
use io_react_native_wallet_i.Base.Lists.{contains}

module _ {ℓ} where
  abbrev pub Dict : Type ℓ → Type ℓ
  Dict V = List (String × V)

module _ {ℓ} {V : Type ℓ} where
  -- `o[k]`, with `none` for `undefined`.
  unfoldable pub lookup : String → Dict V → Option V
  lookup k [] = none
  lookup k ((j, v) ∷ d) = if j == k then some v else lookup k d

  -- `o[k] = v`, or `{ ...o, [k]: v }`: an old key keeps its place.
  unfoldable pub insert : String → V → Dict V → Dict V
  insert k v [] = (k, v) ∷ []
  insert k v ((j, w) ∷ d) = if j == k then (j, v) ∷ d else (j, w) ∷ insert k v d

  -- `{ ...o, ...p }`
  unfoldable pub spread : Dict V → Dict V → Dict V
  spread o [] = o
  spread o ((k, v) ∷ p) = spread (insert k v o) p

  -- `Object.fromEntries(entries)`
  abbrev pub from_entries : List (String × V) → Dict V
  from_entries entries = spread [] entries

  -- `Object.keys(o)`
  unfoldable pub keys : Dict V → List String
  keys d = map (λ e. e.0) d

  pub lookup-insert :
      (k j : String) (v : V) (d : Dict V)
      → lookup j (insert k v d) ≡ (if k == j then some v else lookup j d)
  unfolding lookup insert
  lookup-insert k j v [] = refl
  lookup-insert k j v ((i, w) ∷ d) =
      ground (arith, eq_iff k j, eq_iff i k, eq_iff i j, lookup-insert k j v d)

  -- The last entry of a key wins, and a key of the second object hides that of the first.
  unfoldable pub last_of : String → List (String × V) → Option V
  last_of k [] = none
  last_of k ((j, v) ∷ d) = or_else (last_of k d) (if j == k then some v else none)

  pub lookup-spread :
      (k : String) (o p : Dict V) → lookup k (spread o p) ≡ or_else (last_of k p) (lookup k o)
  unfolding spread last_of
  lookup-spread k o [] = refl
  lookup-spread k o ((j, v) ∷ p) =
      lookup-spread k (insert j v o) p ∙ ground (arith, lookup-insert j k v o)

  -- No key stands twice.
  abbrev pub Distinct : Dict V → Type ℓ
  Distinct [] = Unit
  Distinct ((k, v) ∷ d) = (lookup k d ≡ none) × Distinct d

  insert-Distinct : (k : String) (v : V) (d : Dict V) → Distinct d → Distinct (insert k v d)
  unfolding insert lookup
  insert-Distinct k v [] h = (refl, tt)
  insert-Distinct k v ((j, w) ∷ d) (h1, h2) =
      ground (arith, eq_iff j k, eq_iff k j, lookup-insert k j v d, insert-Distinct k v d h2)

  spread-Distinct : (o p : Dict V) → Distinct o → Distinct (spread o p)
  unfolding spread
  spread-Distinct o [] h = h
  spread-Distinct o ((k, v) ∷ p) h = spread-Distinct (insert k v o) p (insert-Distinct k v o h)

  last_of-eq-lookup : (k : String) (d : Dict V) → Distinct d → last_of k d ≡ lookup k d
  unfolding last_of lookup
  last_of-eq-lookup k [] h = refl
  last_of-eq-lookup k ((j, v) ∷ d) (h1, h2) = ground (arith, eq_iff j k, last_of-eq-lookup k d h2)

  pub lookup-from_entries : (k : String) (d : Dict V) → lookup k (from_entries d) ≡ last_of k d
  unfolding lookup
  lookup-from_entries k d = lookup-spread k [] d ∙ ground arith

  pub last_of-from_entries : (k : String) (d : Dict V) → last_of k (from_entries d) ≡ last_of k d
  last_of-from_entries k d =
      last_of-eq-lookup k (from_entries d) (spread-Distinct [] d tt) ∙ lookup-from_entries k d

  pub contains-keys : (k : String) (d : Dict V) → contains (keys d) k ≡ is_some (lookup k d)
  unfolding contains keys lookup
  contains-keys k [] = refl
  contains-keys k ((j, v) ∷ d) = ground (arith, contains-keys k d)
