-- ===== src/State/Server/Pairing.antt =====
-- Clients and radios belong together.
use vcs_srs_server.State.Server.{ClientState, ServerState, add_client}
use vcs_srs_server.Base.{◌≡◌, Uuid, nat_eq, string_eq, has, map_laws}

-- An identifier has a client state exactly when it has radios.
pub record IsPaired (s : ServerState) : Type 0 where
  pub at : (i : Uuid) → has i s.clients ≡ has i s.radio_clients

-- A login keeps clients and radios paired.
pub add_client-IsPaired :
    (i : Uuid) (c : ClientState) (s : ServerState) → IsPaired s → IsPaired (add_client i c s)
unfolding add_client
add_client-IsPaired i c s h = record { at = λ j. grind (map_laws, h.at j) }
