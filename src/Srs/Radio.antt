-- ===== src/Srs/Radio.antt =====
-- srs/srs_service.go: the service that clients call once they are authenticated. A call is one step:
-- what it does under separate locks is taken together. `client_id` is the value that the
-- interceptor puts into the context; without one the type assertion panics.
pub mod Laws
use vcs_srs_server.State.Server.{ServerState}
use vcs_srs_server.State.Settings.{SettingsState}
use vcs_srs_server.Events.{
  Event, EventBus, clients_changed, clients_map, publish, radio_clients_changed, radio_clients_map,
}
use vcs_srs_server.Srs.Checks.{UuidText}
use vcs_srs_server.Base.{
  ℕ, String, Bool, true, false, not, ◌||◌, Option, none, some, Uuid, Outcome, returns, panics,
  if◌then◌else◌, nat_eq, string_eq, Map, delete, has,
}

-- An update stream, known by a number.
abbrev pub Stream : Type 0
Stream = ℕ

pub record RadioServer : Type 0 where
  pub state : ServerState
  pub settings : SettingsState
  pub bus : EventBus
  pub streams : Map Uuid Stream

pub record ServerResponse : Type 0 where
  pub success : Bool
  pub error_message : String

abbrev pub accepted : ServerResponse
accepted = record { success = true; error_message = "" }

abbrev pub refused : String → ServerResponse
refused message = record { success = false; error_message = message }

abbrev pub clients_event : Event
clients_event = record { name = clients_changed; payload = clients_map }

abbrev pub radio_clients_event : Event
radio_clients_event = record { name = radio_clients_changed; payload = radio_clients_map }

abbrev pub published : Event → RadioServer → RadioServer
published e r = record r { bus = publish e r.bus }

unfoldable pub cleanup_client_state : Uuid → ServerState → ServerState
cleanup_client_state i s = record s {
  clients = delete i s.clients;
  radio_clients = delete i s.radio_clients;
}

abbrev pub cleaned : Uuid → RadioServer → RadioServer
cleaned i r = record r { state = cleanup_client_state i r.state }

-- `known` and `known_radio` are what the two lookups found.
disconnect_found : Uuid → Bool → Bool → RadioServer → ServerResponse × RadioServer
disconnect_found i known known_radio r =
    if not known || not known_radio
    then (refused "Internal error: You may already have been disconnected.", cleaned i r)
    else (accepted, published clients_event (cleaned i r))

module _ (u : UuidText) where
  unfoldable pub disconnect : Option String → RadioServer → Outcome ServerResponse × RadioServer
  unfolding disconnect_found
  disconnect none r = (panics, r)
  disconnect (some client_id) r = elim (u.parse client_id) [
    | none ↦ (returns (refused "Internal error, please try logging in again."), r)
    | some i ↦
        let (response, r') =
          disconnect_found i (has i r.state.clients) (has i r.state.radio_clients) r in
        (returns response, r')
  ]
