-- ===== src/Keys/Ephemeral.antt =====
-- The life of an ephemeral and of a regenerated key.
use io_react_native_wallet_i.Base.{
  ◌≡◌, refl, ap, String, ◌∷◌, ◌+◌, ◌<>◌, Bool-cases, inl, inr, true, false, ◌⊎◌, eq_iff, arith,
}
use io_react_native_wallet_i.Host.{Host, generate, delete}
use io_react_native_wallet_i.Errors.{Error, foreign}
use io_react_native_wallet_i.Errors.Result.{Result, ok, err}
use io_react_native_wallet_i.Promise.{
  World, Async, draw_uuid, generate_key, delete_key, >>=-of_returned, >>=-of_thrown,
}
use io_react_native_wallet_i.Keys.{
  LiveContext, create_crypto_context_for, with_ephemeral_key, is_key_not_found,
  delete_key_if_exists, regenerate_crypto_key,
}

-- The result of a function, unless the cleanup throws.
abbrev pub settled_by : {R : Type 0} → Result (Unit {0}) → Result R → Result R
settled_by (ok u) r = r
settled_by (err e) r = err e

-- What was done with an ephemeral key.
pub record IsEphemeral (H : Host) {R : Type 0} (fn : LiveContext → Async R) (tag : String)
    (before after : World) (r : Result R) : Type 0 where
  pub used : World
  pub result : Result R
  pub ran :
      fn
        (create_crypto_context_for H tag)
        (record before { drawn = before.drawn + 1; key_calls = generate tag ∷ before.key_calls })
      ≡ (result, used)
  pub deleted : after ≡ record used { key_calls = delete tag ∷ used.key_calls }
  pub handed_on : r ≡ settled_by (H.change_keys used.key_calls (delete tag)) result

settle :
    {R : Type 0} (c : Result (Unit {0})) (r : Result R) (v : World)
    → ◌≡◌ {A = Result R × World} (elim c [ ok u ↦ (r, v) | err e ↦ (err e, v) ]) (settled_by c r, v)
settle (ok u) r v = refl
settle (err e) r v = refl

module _ (H : Host) {R : Type 0} where
  -- If the key store generates the ephemeral key, the function runs with a context of that key,
  -- after it was generated; whether the function returns or throws, the last call is to delete the
  -- key. The result is that of the function, or the error of the deletion if that fails.
  pub with_ephemeral_key-IsEphemeral :
      (fn : LiveContext → Async R) (w : World)
      → H.change_keys w.key_calls (generate ("ephemeral-" <> H.uuid w.drawn)) ≡ ok tt
      → IsEphemeral H fn
          ("ephemeral-" <> H.uuid w.drawn)
          w
          (with_ephemeral_key H fn w).1
          (with_ephemeral_key H fn w).0
  unfolding with_ephemeral_key draw_uuid generate_key delete_key
  with_ephemeral_key-IsEphemeral fn w h =
      let tag = "ephemeral-" <> H.uuid w.drawn in
      let start = record w { drawn = w.drawn + 1; key_calls = generate tag ∷ w.key_calls } in
      let run = fn (create_crypto_context_for H tag) start in
      let same =
        settle (H.change_keys run.1.key_calls (delete tag)) run.0
          (record run.1 { key_calls = delete tag ∷ run.1.key_calls }) in
      rw h record {
        used = run.1;
        result = run.0;
        ran = refl;
        deleted = ap (λ p. p.1) same;
        handed_on = ap (λ p. p.0) same;
      }

  -- If the key store does not generate the ephemeral key, its error is thrown, and the function does
  -- not run.
  pub with_ephemeral_key_refused :
      (fn : LiveContext → Async R) (w : World) {e : Error}
      → H.change_keys w.key_calls (generate ("ephemeral-" <> H.uuid w.drawn)) ≡ err e
      → with_ephemeral_key H fn w ≡ (
        err e,
        record w {
          drawn = w.drawn + 1;
          key_calls = generate ("ephemeral-" <> H.uuid w.drawn) ∷ w.key_calls;
        },
      )
  unfolding with_ephemeral_key draw_uuid generate_key delete_key
  with_ephemeral_key_refused fn w h = rw h refl

is_key_not_found-holds :
    (e : Error) → is_key_not_found e ≡ true → e ≡ foreign "PUBLIC_KEY_NOT_FOUND"
is_key_not_found-holds (foreign message) h =
    ap foreign (ground (arith, eq_iff message "PUBLIC_KEY_NOT_FOUND"))
is_key_not_found-holds _ h = cc

-- That the key store deleted the key, or had none.
abbrev pub IsGone : Result (Unit {0}) → Type 0
IsGone r = (r ≡ ok tt) ⊎ (r ≡ err (foreign "PUBLIC_KEY_NOT_FOUND"))

module _ (H : Host) (tag : String) (w : World) where
  -- How a key is regenerated, by the answer to its deletion.
  abbrev pub Regenerated : Result (Unit {0}) → Type 0
  Regenerated r =
      (IsGone r
        × (regenerate_crypto_key H tag w ≡ (
          H.change_keys (delete tag ∷ w.key_calls) (generate tag),
          record w { key_calls = generate tag ∷ delete tag ∷ w.key_calls },
        )))
      ⊎ ((e : Error) × (r ≡ err e)
          × (¬ (e ≡ foreign "PUBLIC_KEY_NOT_FOUND"))
          × (regenerate_crypto_key H tag w
              ≡ (err e, record w { key_calls = delete tag ∷ w.key_calls })))

  not_found :
      (e : Error)
      → H.change_keys w.key_calls (delete tag) ≡ err e
      → is_key_not_found e ≡ true
      → delete_key_if_exists H tag w ≡ (ok tt, record w { key_calls = delete tag ∷ w.key_calls })
  unfolding delete_key_if_exists delete_key
  not_found e h gone = rw (h, gone) refl

  refused :
      (e : Error)
      → H.change_keys w.key_calls (delete tag) ≡ err e
      → is_key_not_found e ≡ false
      → delete_key_if_exists H tag w ≡ (err e, record w { key_calls = delete tag ∷ w.key_calls })
  unfolding delete_key_if_exists delete_key
  refused e h other = rw (h, other) refl

  deleted :
      H.change_keys w.key_calls (delete tag) ≡ ok tt
      → delete_key_if_exists H tag w ≡ (ok tt, record w { key_calls = delete tag ∷ w.key_calls })
  unfolding delete_key_if_exists delete_key
  deleted h = rw h refl

  by_answer : (r : Result (Unit {0})) → H.change_keys w.key_calls (delete tag) ≡ r → Regenerated r
  unfolding regenerate_crypto_key generate_key
  by_answer (ok u) h = inl (
    inl refl,
    >>=-of_returned (delete_key_if_exists H tag) (λ _. generate_key H tag) w (deleted h),
  )
  by_answer (err e) h = elim (Bool-cases (is_key_not_found e)) [
    | inl gone ↦ inl (
      inr (ap err (is_key_not_found-holds e gone)),
      >>=-of_returned (delete_key_if_exists H tag) (λ _. generate_key H tag) w (not_found e h gone),
    )
    | inr other ↦ inr (
      e,
      refl,
      λ same. cc (ap is_key_not_found same),
      >>=-of_thrown (delete_key_if_exists H tag) (λ _. generate_key H tag) w (refused e h other),
    )
  ]

  -- To regenerate a key first deletes its tag. If the key store deletes it, or answers that there
  -- is no such key, the tag is generated next, and the result is that of the generation; on any
  -- other error that error is thrown, and nothing is generated.
  pub regenerate_crypto_key_cases : Regenerated (H.change_keys w.key_calls (delete tag))
  regenerate_crypto_key_cases = by_answer (H.change_keys w.key_calls (delete tag)) refl
