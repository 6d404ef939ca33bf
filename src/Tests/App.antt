-- ===== src/Tests/App.antt =====
-- The window over two clients, with an empty ban file and default settings.
use vcs_srs_server.App.Clients.{banned_eq}
use vcs_srs_server.State.Server.{BannedClient, BannedState, RadioState}
use vcs_srs_server.State.Bans.{ensure_ban_file_exists, get_banned_state, save, start_bans}
use vcs_srs_server.State.Bans.Startup.{start_bans_iff}
use vcs_srs_server.Disk.{Disk, is_missing, write_file}
use vcs_srs_server.Srs.Radio.{RadioServer}
use vcs_srs_server.Srs.Sync.{sync_client}
use vcs_srs_server.App.{App}
use vcs_srs_server.App.Clients.{ban_client, ban_of, kick_client}
use vcs_srs_server.App.Clients.Bans.{ban_client_lem, bans, kick_client-sync_client}
use vcs_srs_server.Tests.Packages.{plain_json, plain_json-IsJson, stroke_uuids}
use vcs_srs_server.Tests.VoiceServer.{client_named, quiet, two_known}
use vcs_srs_server.Tests.RadioServer.{empty_bus, site}
use vcs_srs_server.Base.{
  String, ◌≡◌, refl, ◌↔◌, true, false, none, some, [], ◌∷◌, ◌++◌, Uuid, returns, panics,
  if◌then◌else◌, ◌==◌, nat_eq, string_eq, lookup,
}

abbrev disk : Disk
disk = record { files = ("bans.json", "") ∷ []; read_fails = λ f. false; write_fails = λ f. false }

abbrev window : App
window = record { state = two_known; settings = quiet; disk = disk; bus = empty_bus; window = [] }

abbrev ada_banned : BannedClient
ada_banned = ban_of (client_named "Ada") "|||||||" "noise"

finds_ada : lookup 7 window.state.clients ≡ some (client_named "Ada")
unfolding lookup
finds_ada = refl

finds_radios : lookup 7 window.state.radio_clients ≡ some (record { radios = []; muted = false })
unfolding lookup
finds_radios = refl

abbrev no_radios : RadioState
no_radios = record { radios = []; muted = false }

saves :
    (save plain_json (record { banned_clients = ada_banned ∷ []; file = "bans.json" }) disk).0
    ≡ true
unfolding save ensure_ban_file_exists is_missing write_file lookup
saves = refl

abbrev kicked : RadioServer
kicked = record site { state = (kick_client stroke_uuids "|||||||" "noise" window).state }

abbrev no_bans : BannedState
no_bans = record { banned_clients = []; file = "bans.json" }

ban_client_lem_example :
    let after = ban_client stroke_uuids plain_json "|||||||" "noise" window in
    (bans after ≡ bans window ++ ban_of (client_named "Ada") "|||||||" "noise" ∷ [])
    × ((k : Uuid)
        → lookup k after.state.clients ≡ (if 7 == k then none else lookup k window.state.clients))
    × ((get_banned_state plain_json window.state.banned_state.file after.disk).0
        ≡ some after.state.banned_state)
ban_client_lem_example =
    ban_client_lem stroke_uuids plain_json plain_json-IsJson "|||||||" "noise" 7
      (client_named "Ada") window refl finds_ada refl saves

kick_client-sync_client_example :
    (lookup 7 (kick_client stroke_uuids "|||||||" "noise" window).state.clients ≡ none)
    × ((sync_client stroke_uuids kicked).0 ≡ panics)
kick_client-sync_client_example =
    kick_client-sync_client stroke_uuids "|||||||" "noise" 7 no_radios window kicked refl
      finds_radios refl

start_bans_iff_example : ((start_bans plain_json "bans.json" disk).0 ≡ returns no_bans) ↔ (
    (text : String) × (lookup "bans.json" disk.files ≡ some text)
    × (disk.read_fails "bans.json" ≡ false)
    × (plain_json.decode text ≡ some no_bans.banned_clients)
    × (no_bans.file ≡ "bans.json"))
start_bans_iff_example = start_bans_iff plain_json "bans.json" disk no_bans
