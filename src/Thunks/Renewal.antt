-- ===== src/Thunks/Renewal.antt =====
-- When the thunks ask for a new attestation: `shouldRequestAttestationSelector` and the head of the
-- thunks that use it.
use io_react_native_wallet_i.Base.{
  ◌≡◌, refl, sym, ap, ◌∙◌, ℕ, ◌*◌, String, Bool, true, false, Option, some, none, ◌==◌, leb,
}
use io_react_native_wallet_i.Value.{Value}
use io_react_native_wallet_i.Host.{Host}
use io_react_native_wallet_i.Errors.{Error}
use io_react_native_wallet_i.Errors.Result.{Result, ok, err}
use io_react_native_wallet_i.Provider.{Generated}
use io_react_native_wallet_i.Integrity.{Platform, NativeIntegrity}
use io_react_native_wallet_i.Store.{get_attestation, pending, rejected, failed}
use io_react_native_wallet_i.Store.Root.{root_reducer}
use io_react_native_wallet_i.Store.Slices.{attestation_reducer}
use io_react_native_wallet_i.Thunks.Kept.{Keeps, get_attestation_thunk-Keeps}
use io_react_native_wallet_i.Wallet
use io_react_native_wallet_i.Wallet.{WalletInstanceAttestationJwt}
use io_react_native_wallet_i.Thunks.{
  Toolkit, IsToolkit, Environments, App, dispatched, settled, needs_attestation,
  should_request_attestation, get_attestation_thunk, ensure_attestation, ◌>>=◌, Thunk, required,
  renew_if,
}

pub >>=-of_returned :
    {A B : Type 0} (m : Thunk A) (k : A → Thunk B) (s : App) {a : A} {s' : App}
    → m s ≡ (ok a, s')
    → (m >>= k) s ≡ k a s'
unfolding ◌>>=◌
>>=-of_returned m k s h =
    ap (λ (p : Result _ × App). elim p.0 [ ok a ↦ k a p.1 | err e ↦ (err e, p.1) ]) h

pub >>=-of_thrown :
    {A B : Type 0} (m : Thunk A) (k : A → Thunk B) (s : App) {e : Error} {s' : App}
    → m s ≡ (err e, s')
    → (m >>= k) s ≡ (err e, s')
unfolding ◌>>=◌
>>=-of_thrown m k s h =
    ap (λ (p : Result _ × App). elim p.0 [ ok a ↦ k a p.1 | err e ↦ (err e, p.1) ]) h

pub required-some :
    (message : String) (o : Option String) (token : String) (s : App)
    → o ≡ some token
    → (token == "") ≡ false
    → required message o s ≡ (ok token, s)
required-some message o token s has full = rw (has, full) refl

abbrev not_found : String
not_found = "Wallet Instance Attestation not found"

module _ (T : Toolkit) (H : Host) (G : Generated) (N : NativeIntegrity) (platform : Platform)
    (vars : Environments) (now : ℕ) where
  -- The app after the selector answered, and after the renewal if it was needed.
  abbrev pub renewed : Bool → App → App
  renewed b s = (renew_if T H G N platform vars now b s).1

  pub ensure_attestation-eq :
      (s : App) {b : Bool} {m : Option (Option String × Bool)}
      → T.select (needs_attestation H now) s.memory s.store.attestation.attestation ≡ (ok b, m)
      → ensure_attestation T H G N platform vars now s
        ≡ required not_found
            (renewed b (record s { memory = m })).store.attestation.attestation
            (renewed b (record s { memory = m }))
  unfolding ensure_attestation should_request_attestation ◌>>=◌
  ensure_attestation-eq s h =
      ap
        (λ (p : Result Bool × Option (Option String × Bool)).
          let s' = record s { memory = p.1 } in
          elim p.0 [
            | ok b ↦ required not_found (renewed b s').store.attestation.attestation (renewed b s')
            | err e ↦ (err e, s')
          ])
        h

pub needs_attestation-expired :
    (H : Host) (now : ℕ) (token : String) {wia : WalletInstanceAttestationJwt}
    → (token == "") ≡ false
    → Wallet.decode H token ≡ ok wia
    → leb now (wia.payload.exp * 1000) ≡ false
    → needs_attestation H now (some token) ≡ ok true
unfolding needs_attestation
needs_attestation-expired H now token full decoded expired = rw (full, decoded, expired) refl

rejected_renewal :
    (e : Value) (s : App)
    → (dispatched (get_attestation (rejected tt e)) s).store.attestation
      ≡ record s.store.attestation { async_status = failed e }
unfolding root_reducer attestation_reducer
rejected_renewal e s = refl

pending_renewal :
    (s : App)
    → (dispatched (get_attestation (pending tt)) s).store.attestation.attestation
      ≡ s.store.attestation.attestation
unfolding root_reducer attestation_reducer
pending_renewal s = refl

module _ (T : Toolkit) (serialize : Error → Value) (laws : IsToolkit T serialize) (H : Host)
    (G : Generated) (N : NativeIntegrity) (platform : Platform) (vars : Environments) where
  -- Once the selector has answered that the stored attestation need not be renewed, a thunk that needs
  -- one goes on with that attestation at any later time, however long it has been expired, and neither
  -- the store nor the world changes.
  pub ensure_attestation-remembered :
      (now : ℕ) (s : App) (token : String)
      → s.store.attestation.attestation ≡ some token
      → (token == "") ≡ false
      → s.memory ≡ some (some token, false)
      → ensure_attestation T H G N platform vars now s ≡ (ok token, s)
  ensure_attestation-remembered now s token has full seen =
      ensure_attestation-eq T H G N platform vars now s (
        ap (λ m. T.select (needs_attestation H now) m s.store.attestation.attestation) seen
        ∙ ap (λ o. T.select (needs_attestation H now) (some (some token, false)) o) has
        ∙ laws.remembers (needs_attestation H now) (some token) false)
      ∙ required-some not_found _ token _ has full
      ∙ ap (λ m. (ok token, record s { memory = m })) (sym seen)

  -- If the stored attestation is expired when the selector first sees it, and the renewal fails, the
  -- thunk goes on with the expired attestation all the same, and the store says that the renewal failed.
  pub ensure_attestation_rejected :
      (now : ℕ) (s : App) (token : String) (wia : WalletInstanceAttestationJwt) {e : Error}
      → s.store.attestation.attestation ≡ some token
      → (token == "") ≡ false
      → s.memory ≡ none
      → Wallet.decode H token ≡ ok wia
      → leb now (wia.payload.exp * 1000) ≡ false
      → (get_attestation_thunk T H G N platform vars now (
          dispatched
            (get_attestation (pending tt))
            (record s { memory = some (some token, true) }))).0
        ≡ err e
      → ((ensure_attestation T H G N platform vars now s).0 ≡ ok token)
        × ((ensure_attestation T H G N platform vars now s).1.store.attestation.async_status
            ≡ failed (serialize e))
  unfolding settled Keeps
  ensure_attestation_rejected now s token wia {e} has full unseen decoded expired refused =
      let seen = record s { memory = some (some token, true) } in
      let body = get_attestation_thunk T H G N platform vars now in
      let after = (body (dispatched (get_attestation (pending tt)) seen)).1 in
      let last = dispatched (get_attestation (rejected tt (serialize e))) after in
      let ends : renewed T H G N platform vars now true seen ≡ last =
        laws.dispatches get_attestation tt body seen
        ∙ ap (λ r. settled serialize get_attestation tt (r, after)) refused in
      let kept : last.store.attestation.attestation ≡ some token =
        ap (λ a. a.attestation) (rejected_renewal (serialize e) after)
        ∙ get_attestation_thunk-Keeps (λ st. st.attestation.attestation) T H G N platform vars now _
        ∙ pending_renewal seen
        ∙ has in
      let runs : ensure_attestation T H G N platform vars now s ≡ (ok token, last) =
        ensure_attestation-eq T H G N platform vars now s (
          ap (λ m. T.select (needs_attestation H now) m s.store.attestation.attestation) unseen
          ∙ ap (λ o. T.select (needs_attestation H now) none o) has
          ∙ laws.computes (needs_attestation H now) (some token)
              (needs_attestation-expired H now token full decoded expired))
        ∙ ap (λ a. required not_found a.store.attestation.attestation a) ends
        ∙ required-some not_found _ token last kept full in
      (
        ap (λ p. p.0) runs,
        ap (λ p. p.1.store.attestation.async_status) runs
            ∙ ap (λ a. a.async_status) (rejected_renewal (serialize e) after),
      )
