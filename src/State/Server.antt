-- ===== src/State/Server.antt =====
-- state/server.go: the clients and their radios. The maps are those that StartUp makes; to a reader
-- a nil map is an empty one. No caller stores a nil pointer in them. A handler's accesses under
-- separate locks are one step here, so a pointer read from a map is written back to its key.
pub mod Listening
pub mod Pairing
use vcs_srs_server.Float32.{Float32, float_eq}
use vcs_srs_server.Base.{
  ℕ, String, Bool, true, false, not, ◌&&◌, none, some, List, [], ◌∷◌, Uuid, Time, if◌then◌else◌,
  ◌==◌, nat_eq, string_eq, Map, lookup, insert,
}

pub record ClientState : Type 0 where
  pub name : String
  pub unit_id : String
  pub coalition : String
  pub role : ℕ
  pub last_update : Time

pub record Radio : Type 0 where
  pub radio_id : ℕ
  pub name : String
  pub frequency : Float32
  pub enabled : Bool
  pub is_intercom : Bool

pub record RadioState : Type 0 where
  pub radios : List Radio
  pub muted : Bool

pub record BannedClient : Type 0 where
  pub client_id : String
  pub name : String
  pub ip_address : String
  pub reason : String

pub record BannedState : Type 0 where
  pub banned_clients : List BannedClient
  pub file : String

pub record ServerState : Type 0 where
  pub clients : Map Uuid ClientState
  pub radio_clients : Map Uuid RadioState
  pub banned_state : BannedState

unfoldable pub add_client : Uuid → ClientState → ServerState → ServerState
add_client guid client s = record s {
  clients = insert guid client s.clients;
  radio_clients = insert guid (record { radios = []; muted = false }) s.radio_clients;
}

-- Ranges over the map; Go leaves the order open.
unfoldable pub get_all_clients : ServerState → List (Uuid × ClientState)
get_all_clients s = s.clients

unfoldable pub get_all_radios : ServerState → List (Uuid × RadioState)
get_all_radios s = s.radio_clients

enabled_of : List Radio → List Float32
enabled_of [] = []
enabled_of (r ∷ rs) = let rest = enabled_of rs in if r.enabled then r.frequency ∷ rest else rest

-- A nil slice and an empty one are the same to the callers.
unfoldable pub get_all_enabled_frequencies : Uuid → ServerState → List Float32
unfolding enabled_of
get_all_enabled_frequencies guid s = elim (lookup guid s.radio_clients) [
  | none ↦ []
  | some state ↦ enabled_of state.radios
]

-- The first radio on the frequency decides.
unfoldable pub tuned_in : List Radio → Float32 → Bool
tuned_in [] f = false
tuned_in (r ∷ rs) f = let rest = tuned_in rs f in if float_eq r.frequency f then r.enabled else rest

-- `receiver` is read at the key of the sender, as in the source.
unfoldable pub is_listening_on_frequency : Uuid → Uuid → Float32 → Bool → ServerState → Bool
is_listening_on_frequency client_guid sender_id frequency global_freq s =
    elim (lookup sender_id s.clients) [
      | none ↦ false
      | some sender ↦ elim (lookup client_guid s.radio_clients) [
        | none ↦ false
        | some client_state ↦ elim (lookup sender_id s.clients) [
          | none ↦ false
          | some receiver ↦
              if not global_freq && not (sender.coalition == receiver.coalition)
              then false
              else tuned_in client_state.radios frequency
        ]
      ]
    ]

unfoldable pub does_client_exist : Uuid → ServerState → Bool
does_client_exist guid s = elim (lookup guid s.clients) [ none ↦ false | some _ ↦ true ]
