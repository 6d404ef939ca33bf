-- ===== src/Srs/Radio/Laws.antt =====
-- Leaving the server.
use vcs_srs_server.State.Server.{ServerState}
use vcs_srs_server.State.Server.Pairing.{IsPaired}
use vcs_srs_server.Srs.Checks.{UuidText}
use vcs_srs_server.Srs.Radio.{RadioServer, accepted, cleanup_client_state, disconnect}
use vcs_srs_server.Base.{
  String, ◌≡◌, ◌↔◌, true, none, some, arith, Uuid, returns, if◌then◌else◌, ◌==◌, nat_eq, string_eq,
  lookup, lookup-delete, has,
}

pub lookup-cleanup_client_state :
    (i j : Uuid) (s : ServerState)
    → (lookup j (cleanup_client_state i s).clients ≡ (if i == j then none else lookup j s.clients))
      × (lookup j (cleanup_client_state i s).radio_clients
          ≡ (if i == j then none else lookup j s.radio_clients))
unfolding cleanup_client_state
lookup-cleanup_client_state i j s = (lookup-delete i j s.clients, lookup-delete i j s.radio_clients)

pub cleanup_client_state-IsPaired :
    (i : Uuid) (s : ServerState) → IsPaired s → IsPaired (cleanup_client_state i s)
cleanup_client_state-IsPaired i s h = record {
  at = λ j. ground (arith, h.at j, lookup-cleanup_client_state i j s);
}

module _ (u : UuidText) where
  -- A disconnect of a known identifier leaves neither a client state nor radios behind, whatever
  -- there was of them, touches nobody else, and is a success exactly when both were there.
  pub disconnect_lem :
      (client_id : String) (i : Uuid) (r : RadioServer)
      → u.parse client_id ≡ some i
      → let (response, after) = disconnect u (some client_id) r in
        ((j : Uuid)
          → (lookup j after.state.clients ≡ (if i == j then none else lookup j r.state.clients))
            × (lookup j after.state.radio_clients
                ≡ (if i == j then none else lookup j r.state.radio_clients)))
        × ((response ≡ returns accepted)
            ↔ ((has i r.state.clients ≡ true) × (has i r.state.radio_clients ≡ true)))
  unfolding disconnect
  disconnect_lem client_id i r parsed = (
    λ j. ground (arith, lookup-cleanup_client_state i j r.state),
    (λ h. ground arith, λ h. ground arith),
  )
