-- ===== src/Starttls/Connect/Results.antt =====
-- starttls/starttls.go: what `GetConnectionState` gives, and when it panics.
use certigo.Base.{
  ◌↔◌, ℕ, ◌/◌, List, [], ◌≡◌, ◌≢◌, refl, Option, none, some, true, false, Bytes, Result-cases,
  Bool-cases, inl, inr, value, error, Outcome, ok, err, panic, ltb,
}
use certigo.X509.{ConnectionState, RequestInfo, version_tls12}
use certigo.Starttls.Address.{tls_config_for_connect, with_default_port, postgres_url}
use certigo.Starttls.Connect.{
  Proxy, Network, Timers, Target, ConnectResult, is_postgres, dialer_for, attempt, attempt_postgres,
  received, finish_connect, finish_attempt, get_connection_state,
}

-- What a result says of the signature schemes: below TLS 1.2 none are told.
abbrev pub ClearsOldSchemes : Outcome Bytes (ConnectionState × Option RequestInfo) → Type 0
ClearsOldSchemes (ok (state, some info)) =
    ltb state.version version_tls12 ≡ true → info.signature_schemes ≡ []
ClearsOldSchemes (ok (state, none)) = Unit {0}
ClearsOldSchemes (err e) = Unit {0}
ClearsOldSchemes panic = Unit {0}

finish_connect-ClearsOldSchemes :
    (r : ConnectResult) (cri : Option (Option RequestInfo))
    → ClearsOldSchemes (finish_connect r cri)
unfolding finish_connect
finish_connect-ClearsOldSchemes (error e) cri = tt
finish_connect-ClearsOldSchemes (value state) none = tt
finish_connect-ClearsOldSchemes (value state) (some none) = tt
finish_connect-ClearsOldSchemes (value state) (some (some info)) = λ old. rw old

finish_attempt-ClearsOldSchemes :
    (timers : Timers) (o : Outcome Bytes (List ConnectResult)) (cri : Option (Option RequestInfo))
    → ClearsOldSchemes (finish_attempt timers o cri)
finish_attempt-ClearsOldSchemes timers (ok sent) cri =
    finish_connect-ClearsOldSchemes (received timers sent) cri
finish_attempt-ClearsOldSchemes timers (err e) cri = tt
finish_attempt-ClearsOldSchemes timers panic cri = tt

module _ (N : Network) (timers : Timers) (captured : Option RequestInfo) (target : Target) where
  module _ (proxy : Option Proxy) (timeout : ℕ) where
    -- A connection of postgres never ends in a state: it panics exactly where the proxy, if there is
    -- one, is accepted, the driver comes to a state, and the timer has not gone off, since the pointer
    -- to the request info is nil there, and it is followed.
    pub get_connection_state-postgres :
        (protocol : Bytes)
        → is_postgres protocol ≡ true
        → ((get_connection_state N timers captured protocol target proxy timeout ≡ panic) ↔ (
            ((dialer : N.Dialer) × (dialer_for N proxy none ≡ value dialer))
            × ((state : ConnectionState) × (N.postgres_dump (
                    postgres_url target.identity
                      (with_default_port target.connect_to 5432)
                      (timeout / 1000000000)
                      target.client_cert
                      target.client_key)
                  ≡ value state))
            × (timers.result_late ≡ false)))
          × ((given : ConnectionState × Option RequestInfo)
              → get_connection_state N timers captured protocol target proxy timeout ≢ ok given)
    unfolding get_connection_state attempt_postgres finish_connect
    get_connection_state-postgres protocol hp = elim (Result-cases (dialer_for N proxy none)) [
      | inl (e, hd) ↦ rw (hp, hd) ((λ p. cc, λ ((d, other), r, f). cc), λ g p. cc)
      | inr (dialer, hd) ↦ elim (Bool-cases timers.result_late) [
        | inl ht ↦ rw (hp, hd, ht) ((λ p. cc, λ (q, r, hf). cc), λ g p. cc)
        | inr ht ↦
            elim (Result-cases (
              N.postgres_dump (
                postgres_url target.identity (with_default_port target.connect_to 5432)
                  (timeout / 1000000000) target.client_cert target.client_key))) [
                    | inl (e, hs) ↦
                        rw (hp, hd, ht, hs) ((λ p. cc, λ (q, (state, h), r). cc), λ g p. cc)
                    | inr (state, hs) ↦
                        rw (hp, hd, ht, hs)
                          ((λ p. ((dialer, refl), (state, refl), refl), λ q. refl), λ g p. cc)
                  ]
      ]
    ]

    -- Whatever the protocol and the network do: where a connection below TLS 1.2 comes with the
    -- server's request for a certificate, no signature schemes are told with it.
    pub get_connection_state-ClearsOldSchemes :
        (protocol : Bytes)
        → ClearsOldSchemes (get_connection_state N timers captured protocol target proxy timeout)
    unfolding get_connection_state
    get_connection_state-ClearsOldSchemes protocol = elim (Bool-cases (is_postgres protocol)) [
      | inl hp ↦ elim (Result-cases (dialer_for N proxy none)) [
        | inl (e, hd) ↦ rw (hp, hd) tt
        | inr (d, hd) ↦
            rw (hp, hd)
              (finish_connect-ClearsOldSchemes (received timers (attempt_postgres N target timeout))
                none)
      ]
      | inr hp ↦
          elim (Result-cases (
            tls_config_for_connect N.load_key_pair target.connect_name target.connect_to
              target.client_cert target.client_key)) [
                | inl (e, ht) ↦ rw (hp, ht) tt
                | inr (config, ht) ↦ elim (Result-cases (dialer_for N proxy (some config))) [
                  | inl (e, hd) ↦ rw (hp, ht, hd) tt
                  | inr (d, hd) ↦
                      rw (hp, ht, hd)
                        (finish_attempt-ClearsOldSchemes timers
                          (attempt N timers protocol target d timeout config) (some captured))
                ]
              ]
    ]
