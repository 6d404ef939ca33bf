-- ===== src/Srs/Sync.antt =====
-- srs/srs_service.go: what a client is told of all others, and of the settings.
pub mod Laws
use vcs_srs_server.State.Server.{ClientState, RadioState, get_all_clients, get_all_radios}
use vcs_srs_server.State.Settings.{Coalition}
use vcs_srs_server.Float32.{Float32}
use vcs_srs_server.Srs.Checks.{RadioInfo, UuidText, convert_radios}
use vcs_srs_server.Srs.Radio.{RadioServer, clients_event, published}
use vcs_srs_server.Base.{
  ℕ, ◌%◌, ◌^◌, String, Option, none, some, List, [], ◌∷◌, map, Uuid, Outcome, returns, panics,
  nat_eq, string_eq, Map, lookup, insert, unix,
}

-- The fields that SyncClient fills in; the time is a word of 64 bits.
pub record ClientInfo : Type 0 where
  pub name : String
  pub coalition : String
  pub unit_id : String
  pub role_id : ℕ
  pub last_update : Option ℕ

pub record CoalitionInfo : Type 0 where
  pub name : String
  pub color : String
  pub description : String

-- `max_radios_per_client` is the bit pattern of an int32.
pub record SettingsInfo : Type 0 where
  pub coalitions : List CoalitionInfo
  pub test_frequencies : List Float32
  pub global_frequencies : List Float32
  pub max_radios_per_client : ℕ

pub record SyncResult : Type 0 where
  pub clients : Map String ClientInfo
  pub radios : Map String RadioInfo
  pub settings : SettingsInfo

abbrev pub coalition_info : Coalition → CoalitionInfo
coalition_info c = record { name = c.name; color = c.color; description = c.description }

unfoldable pub build_server_settings : RadioServer → SettingsInfo
build_server_settings r = record {
  coalitions = map coalition_info r.settings.coalitions;
  test_frequencies = r.settings.frequencies.test_frequencies;
  global_frequencies = r.settings.frequencies.global_frequencies;
  max_radios_per_client = r.settings.general.max_radios_per_user % 2 ^ 32;
}

unfoldable pub get_server_settings : RadioServer → SettingsInfo
get_server_settings r = build_server_settings r

module _ (u : UuidText) where
  unfoldable pub client_infos : List (Uuid × ClientState) → Map String ClientInfo
  client_infos [] = []
  client_infos ((i, c) ∷ cs) =
      insert (u.to_string i)
        (record {
          name = c.name;
          coalition = c.coalition;
          unit_id = "";
          role_id = 0;
          last_update = some (unix c.last_update);
        })
        (client_infos cs)

  -- The time is read from the client of the same identifier, which may be missing.
  unfoldable pub radio_infos :
      List (Uuid × RadioState) → Map Uuid ClientState → Outcome (Map String RadioInfo)
  radio_infos [] clients = returns []
  radio_infos ((i, r) ∷ rs) clients =
      let rest = radio_infos rs clients in
      elim (lookup i clients) [
        | none ↦ panics
        | some c ↦ elim rest [
          | panics ↦ panics
          | returns m ↦ returns (
              insert (u.to_string i)
                (record {
                  radios = convert_radios r.radios;
                  muted = r.muted;
                  last_update = some (unix c.last_update);
                })
                m)
        ]
      ]

  unfoldable pub sync_client : RadioServer → Outcome SyncResult × RadioServer
  sync_client r = elim (radio_infos (get_all_radios r.state) r.state.clients) [
    | panics ↦ (panics, r)
    | returns radios ↦ (
      returns (record {
        clients = client_infos (get_all_clients r.state);
        radios = radios;
        settings = build_server_settings r;
      }),
      published clients_event r,
    )
  ]
