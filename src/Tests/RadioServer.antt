-- ===== src/Tests/RadioServer.antt =====
-- Two clients of the control server, of which the client 7 has an update stream.
use vcs_srs_server.State.Server.{ClientState, is_listening_on_frequency}
use vcs_srs_server.State.Server.Pairing.{IsPaired}
use vcs_srs_server.State.Server.Listening.{Hears, is_listening_iff}
use vcs_srs_server.State.Settings.{does_coalition_exist}
use vcs_srs_server.Float32.{thousandth}
use vcs_srs_server.Events.{EventBus}
use vcs_srs_server.Srs.Checks.{RadioInfo, can_swap_roles, check_unit_id, check_username}
use vcs_srs_server.Srs.Radio.{RadioServer, accepted}
use vcs_srs_server.Srs.Sync.{SyncResult, sync_client}
use vcs_srs_server.Srs.Updates.{ClientUpdate, uint8, update_client_info, update_radio_info}
use vcs_srs_server.Srs.Cleanup.{cleanup_round, cleanup_round_lem, dropped, is_expired}
use vcs_srs_server.Srs.Sync.Laws.{AreTold, sync_client_returns, told}
use vcs_srs_server.Srs.Updates.Laws.{update_client_info_lem, updates-IsPaired}
use vcs_srs_server.Tests.Packages.{stroke_uuids, stroke_uuids-IsUuidText}
use vcs_srs_server.Tests.VoiceServer.{client_named, quiet, two_known}
use vcs_srs_server.Base.{
  ◌%◌, ◌^◌, String, ◌≡◌, refl, ◌↔◌, true, false, ◌&&◌, none, some, [], ◌∷◌, arith, Uuid, returns,
  if◌then◌else◌, ◌==◌, nat_eq, string_eq, lookup, IsUnique, has,
}

abbrev pub empty_bus : EventBus
empty_bus = record { subscribers = []; publish_queue = [] }

abbrev pub site : RadioServer
site = record { state = two_known; settings = quiet; bus = empty_bus; streams = (7, 1) ∷ [] }

pub two_known-IsPaired : IsPaired two_known
unfolding lookup
two_known-IsPaired = record { at = λ i. ground arith }

radios_once : IsUnique two_known.radio_clients
unfolding lookup
radios_once = (refl, (refl, tt))

streams_once : IsUnique site.streams
unfolding lookup
streams_once = (refl, tt)

finds_ada : lookup 7 site.state.clients ≡ some (client_named "Ada")
unfolding lookup
finds_ada = refl

abbrev renaming : ClientUpdate
renaming = record { name = "Eve"; coalition = "Red"; unit_id = "XY22"; role_id = 2 }

abbrev one_radio : RadioInfo
one_radio = record {
  radios =
      record {
        radio_id = 1;
        name = "COM1";
        frequency = thousandth 118300;
        enabled = true;
        is_intercom = true;
      }
      ∷ [];
  muted = false;
  last_update = none;
}

abbrev seven : String
seven = "|||||||"

sync_client_returns_example :
    (result : SyncResult) × ((sync_client stroke_uuids site).0 ≡ returns result)
    × AreTold site.settings.coalitions result.settings.coalitions
    × (result.settings.test_frequencies ≡ site.settings.frequencies.test_frequencies)
    × (result.settings.global_frequencies ≡ site.settings.frequencies.global_frequencies)
    × (result.settings.max_radios_per_client ≡ site.settings.general.max_radios_per_user % 2 ^ 32)
    × ((i : Uuid)
        → lookup (stroke_uuids.to_string i) result.clients ≡ told (lookup i site.state.clients))
sync_client_returns_example =
    sync_client_returns stroke_uuids stroke_uuids-IsUuidText site radios_once two_known-IsPaired

update_client_info_lem_example :
    let (response, after) = update_client_info stroke_uuids (some seven) renaming 50 site in
    ((response ≡ returns accepted) ↔ (
      check_username renaming.name
        && check_unit_id renaming.unit_id
        && does_coalition_exist renaming.coalition site.settings
        && can_swap_roles (client_named "Ada") (uint8 renaming.role_id)
      ≡ true))
    × ((d : ClientState) × (lookup 7 after.state.clients ≡ some d)
        × (d.name
            ≡ (if check_username renaming.name then renaming.name else (client_named "Ada").name))
        × (d.unit_id ≡ (
            if check_unit_id renaming.unit_id
            then renaming.unit_id
            else (client_named "Ada").unit_id))
        × (d.coalition ≡ (
            if does_coalition_exist renaming.coalition site.settings
            then renaming.coalition
            else (client_named "Ada").coalition))
        × (d.role ≡ (
            if can_swap_roles (client_named "Ada") (uint8 renaming.role_id)
            then uint8 renaming.role_id
            else (client_named "Ada").role))
        × (d.last_update ≡ 50))
    × ((j : Uuid)
        → lookup j after.state.clients
          ≡ (if 7 == j then lookup 7 after.state.clients else lookup j site.state.clients))
    × (after.state.radio_clients ≡ site.state.radio_clients)
update_client_info_lem_example =
    update_client_info_lem stroke_uuids seven 7 (client_named "Ada") renaming 50 site refl finds_ada

updates-IsPaired_example :
    IsPaired (update_client_info stroke_uuids (some seven) renaming 50 site).1.state
    × IsPaired (update_radio_info stroke_uuids (some seven) one_radio site).1.state
updates-IsPaired_example =
    updates-IsPaired stroke_uuids seven renaming one_radio 50 site two_known-IsPaired

cleanup_round_lem_example :
    let gone = has 7 site.streams && is_expired 100 10 7 site in
    let after = cleanup_round 100 10 site in
    (lookup 7 after.streams ≡ dropped gone (lookup 7 site.streams))
    × (lookup 7 after.state.clients ≡ dropped gone (lookup 7 site.state.clients))
    × (lookup 7 after.state.radio_clients ≡ dropped gone (lookup 7 site.state.radio_clients))
cleanup_round_lem_example = cleanup_round_lem 100 10 site 7 streams_once

is_listening_iff_example :
    (is_listening_on_frequency 9 7 (thousandth 118300) false two_known ≡ true)
    ↔ Hears 9 7 (thousandth 118300) two_known
is_listening_iff_example = is_listening_iff 9 7 (thousandth 118300) false two_known
