-- ===== src/Store/Tracked.antt =====
-- The status of an operation of the store, and what the operation obtains.
use io_react_native_wallet_i.Base.{◌≡◌, Option, none, some}
use io_react_native_wallet_i.Value.{Value}
use io_react_native_wallet_i.Store.{
  AsyncStatus, CredentialType, mdl, european_disability_card, european_health_insurance_card,
  PidAuthMethod, spid, cie_l2, cie_l3, PerCredential, PerMethod, at, put, at_method, put_method,
  async_status_initial, done, loading, failed, CredentialResult,
}

-- An operation is idle, done, loading or failed, and no two of these at once; if it is done, what it
-- obtains is there.
pub data IsTracked {A : Type 0} : Option A → AsyncStatus → Type 0 where
  idle : {o : Option A} → IsTracked o async_status_initial
  is_done : {a : A} → IsTracked (some a) done
  is_loading : {o : Option A} → IsTracked o loading
  is_failed : {o : Option A} {e : Value} → IsTracked o (failed e)

-- One entry changes.
pub put-each :
    {A : Type 0} (P : CredentialType → A → Type 0) (u : CredentialType) {a : A}
    {r : PerCredential A}
    → ((t : CredentialType) → P t (at t r))
    → P u a
    → (t : CredentialType) → P t (at t (put u a r))
put-each P mdl h new mdl = new
put-each P mdl h new european_disability_card = h european_disability_card
put-each P mdl h new european_health_insurance_card = h european_health_insurance_card
put-each P european_disability_card h new mdl = h mdl
put-each P european_disability_card h new european_disability_card = new
put-each P european_disability_card h new european_health_insurance_card =
    h european_health_insurance_card
put-each P european_health_insurance_card h new mdl = h mdl
put-each P european_health_insurance_card h new european_disability_card =
    h european_disability_card
put-each P european_health_insurance_card h new european_health_insurance_card = new

module _ {A : Type 0} where
  -- What is obtained stays obtained while the operation stands still.
  pub IsTracked-some :
      {o : Option A} {s : AsyncStatus} (a : A) → IsTracked o s → IsTracked (some a) s
  IsTracked-some a idle = idle
  IsTracked-some a is_done = is_done
  IsTracked-some a is_loading = is_loading
  IsTracked-some a is_failed = is_failed

  abbrev pub EachTracked : PerCredential (Option A) → PerCredential AsyncStatus → Type 0
  EachTracked os ss = (t : CredentialType) → IsTracked (at t os) (at t ss)

  pub put-EachTracked :
      (u : CredentialType) {os : PerCredential (Option A)} {ss : PerCredential AsyncStatus}
      {o : Option A} {s : AsyncStatus}
      → EachTracked os ss
      → IsTracked o s
      → EachTracked (put u o os) (put u s ss)
  put-EachTracked mdl h new mdl = new
  put-EachTracked mdl h new european_disability_card = h european_disability_card
  put-EachTracked mdl h new european_health_insurance_card = h european_health_insurance_card
  put-EachTracked european_disability_card h new mdl = h mdl
  put-EachTracked european_disability_card h new european_disability_card = new
  put-EachTracked european_disability_card h new european_health_insurance_card =
      h european_health_insurance_card
  put-EachTracked european_health_insurance_card h new mdl = h mdl
  put-EachTracked european_health_insurance_card h new european_disability_card =
      h european_disability_card
  put-EachTracked european_health_insurance_card h new european_health_insurance_card = new

  abbrev pub MethodsTracked : Option A → PerMethod AsyncStatus → Type 0
  MethodsTracked o ss = (m : PidAuthMethod) → IsTracked o (at_method m ss)

  pub put-MethodsTracked :
      (u : PidAuthMethod) {o : Option A} {ss : PerMethod AsyncStatus} {s : AsyncStatus}
      → MethodsTracked o ss
      → IsTracked o s
      → MethodsTracked o (put_method u s ss)
  put-MethodsTracked spid h new spid = new
  put-MethodsTracked spid h new cie_l2 = h cie_l2
  put-MethodsTracked spid h new cie_l3 = h cie_l3
  put-MethodsTracked cie_l2 h new spid = h spid
  put-MethodsTracked cie_l2 h new cie_l2 = new
  put-MethodsTracked cie_l2 h new cie_l3 = h cie_l3
  put-MethodsTracked cie_l3 h new spid = h spid
  put-MethodsTracked cie_l3 h new cie_l2 = h cie_l2
  put-MethodsTracked cie_l3 h new cie_l3 = new

-- What stands under a credential type is of that type.
abbrev pub IsOwn : CredentialType → Option CredentialResult → Type 0
IsOwn t none = Unit
IsOwn t (some r) = r.credential_type ≡ t

abbrev pub EachOwn : PerCredential (Option CredentialResult) → Type 0
EachOwn os = (t : CredentialType) → IsOwn t (at t os)
