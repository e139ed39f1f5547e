-- ===== src/Store/Kept.antt =====
-- The credentials of the store: what every action keeps of their slice.
use io_react_native_wallet_i.Base.{refl, Option, none, some}
use io_react_native_wallet_i.Store.{
  AsyncStatus, CredentialType, mdl, european_disability_card, european_health_insurance_card, at,
  put, async_status_initial, all_credentials, loading, failed, Action, pending, fulfilled, rejected,
  session_reset, instance_reset, credential_reset, trustmark_reset, get_credential,
  get_status_attestation, get_trustmark,
}
use io_react_native_wallet_i.Store.Tracked.{
  IsTracked, idle, is_done, is_loading, is_failed, EachTracked, IsOwn, EachOwn, put-each,
  put-EachTracked,
}
use io_react_native_wallet_i.Store.Slices.{CredentialState, credential_initial, credential_reducer}

-- What the state of the credentials has.
pub record IsKept (s : CredentialState) : Type 0 where
  pub tracked : EachTracked s.credentials s.credentials_async_status
  pub own : EachOwn s.credentials
  pub status_tracked : EachTracked s.status_attestation s.status_att_async_status
  pub trustmark_tracked : (t : CredentialType) → IsTracked (some tt) (at t s.trustmark_async_status)

idle_of :
    {A : Type 0} {o : Option A} (t : CredentialType)
    → IsTracked o (at t (all_credentials async_status_initial))
idle_of mdl = idle
idle_of european_disability_card = idle
idle_of european_health_insurance_card = idle

no_credential : EachOwn (all_credentials none)
no_credential mdl = tt
no_credential european_disability_card = tt
no_credential european_health_insurance_card = tt

pub initial-IsKept : IsKept credential_initial
initial-IsKept = record {
  tracked = λ t. idle_of t;
  own = no_credential;
  status_tracked = λ t. idle_of t;
  trustmark_tracked = λ t. idle_of t;
}

credential_status-IsKept :
    (s : CredentialState) (t : CredentialType) (v : AsyncStatus)
    → ((A : Type 0) (o : Option A) → IsTracked o v)
    → IsKept s
    → IsKept (record s { credentials_async_status = put t v s.credentials_async_status })
      × IsKept (record s { status_att_async_status = put t v s.status_att_async_status })
      × IsKept (record s { trustmark_async_status = put t v s.trustmark_async_status })
credential_status-IsKept s t v new h = (
  record {
    tracked = put-each (λ u w. IsTracked (at u s.credentials) w) t h.tracked (new _ _);
    own = h.own;
    status_tracked = h.status_tracked;
    trustmark_tracked = h.trustmark_tracked;
  },
  record {
    tracked = h.tracked;
    own = h.own;
    status_tracked =
        put-each (λ u w. IsTracked (at u s.status_attestation) w) t h.status_tracked (new _ _);
    trustmark_tracked = h.trustmark_tracked;
  },
  record {
    tracked = h.tracked;
    own = h.own;
    status_tracked = h.status_tracked;
    trustmark_tracked = put-each (λ u w. IsTracked (some tt) w) t h.trustmark_tracked (new _ _);
  },
)

pub credential-IsKept :
    (s : CredentialState) (a : Action) → IsKept s → IsKept (credential_reducer s a)
unfolding credential_reducer
credential-IsKept s credential_reset h = initial-IsKept
credential-IsKept s instance_reset h = initial-IsKept
credential-IsKept s session_reset h = initial-IsKept
credential-IsKept s (trustmark_reset t) h = record {
  tracked = h.tracked;
  own = h.own;
  status_tracked = h.status_tracked;
  trustmark_tracked = h.trustmark_tracked;
}
credential-IsKept s (get_credential (fulfilled _ r)) h = record {
  tracked = put-EachTracked r.credential_type h.tracked is_done;
  own = put-each IsOwn r.credential_type h.own refl;
  status_tracked = h.status_tracked;
  trustmark_tracked = h.trustmark_tracked;
}
credential-IsKept s (get_credential (pending t)) h =
    (credential_status-IsKept s t loading (λ A o. is_loading) h).0
credential-IsKept s (get_credential (rejected t e)) h =
    (credential_status-IsKept s t (failed e) (λ A o. is_failed) h).0
credential-IsKept s (get_status_attestation (fulfilled _ r)) h = record {
  tracked = h.tracked;
  own = h.own;
  status_tracked = put-EachTracked r.credential_type h.status_tracked is_done;
  trustmark_tracked = h.trustmark_tracked;
}
credential-IsKept s (get_status_attestation (pending t)) h =
    (credential_status-IsKept s t loading (λ A o. is_loading) h).1
credential-IsKept s (get_status_attestation (rejected t e)) h =
    (credential_status-IsKept s t (failed e) (λ A o. is_failed) h).1
credential-IsKept s (get_trustmark (fulfilled _ r)) h = record {
  tracked = h.tracked;
  own = h.own;
  status_tracked = h.status_tracked;
  trustmark_tracked =
      put-each (λ u w. IsTracked (some tt) w) r.credential_type h.trustmark_tracked is_done;
}
credential-IsKept s (get_trustmark (pending t)) h =
    (credential_status-IsKept s t loading (λ A o. is_loading) h).2
credential-IsKept s (get_trustmark (rejected t e)) h =
    (credential_status-IsKept s t (failed e) (λ A o. is_failed) h).2
credential-IsKept s _ h = h
