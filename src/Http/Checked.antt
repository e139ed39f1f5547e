-- ===== src/Http/Checked.antt =====
-- The status check of src/utils/misc.ts, when it lets a response pass.
use io_react_native_wallet_i.Base.{◌≡◌, refl, sym, ◌∙◌, ℕ, same_number, arith, inl, inr, Bool-cases}
use io_react_native_wallet_i.Host.{Host, Response}
use io_react_native_wallet_i.Errors.{Error}
use io_react_native_wallet_i.Errors.Result.{Result, ok, err, ◌>>=◌, ok-injective}
use io_react_native_wallet_i.Http.{
  ErrorMaker, has_status_or_throw, parse_raw_http_response, status_message,
}

-- What ends in a throw does not return.
thrown : {A B : Type 0} (r : Result A) (e : A → Error) {b : B} → (r >>= λ a. err (e a)) ≡ ok b → ⊥
thrown (ok a) e h = cc
thrown (err x) e h = cc

module _ (H : Host) where
  -- A response passes as it is, and has the expected status.
  pub has_status_or_throw-eq-ok :
      (n : ℕ) (make : ErrorMaker) (res : Response) {checked : Response}
      → has_status_or_throw H n make res ≡ ok checked
      → (res ≡ checked) × (res.status ≡ n)
  unfolding has_status_or_throw
  has_status_or_throw-eq-ok n make res h = elim (Bool-cases (same_number res.status n)) [
    | inl same ↦ (ok-injective (sym (rw same refl) ∙ h), ground arith)
    | inr other ↦ absurd (
        thrown (parse_raw_http_response H res)
          (λ reason. make (status_message H n res) reason res.status) (sym (rw other refl) ∙ h))
  ]
