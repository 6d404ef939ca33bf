-- ===== src/Tests/VoiceServer.antt =====
-- A voice server with two clients, of which the one with the identifier 7 speaks.
use vcs_srs_server.Voice.Protocol.{VcsPacket, ok, parse_packet, serialize_packet}
use vcs_srs_server.Voice.Protocol.PacketType
use vcs_srs_server.State.Server.{ClientState, ServerState, does_client_exist}
use vcs_srs_server.State.Settings.{
  SettingsState, default_settings, is_frequency_global, is_frequency_test,
}
use vcs_srs_server.Float32.{contains_float, thousandth}
use vcs_srs_server.Voice.Server.{Client, Server, broadcast_voice, frequency_as_float32, send}
use vcs_srs_server.Voice.Server.Broadcast.{IsListener, broadcast_reaches}
use vcs_srs_server.Voice.Server.Sessions.{
  Event, IsHarmless, IsPresent, received, run, run-IsPresent, ticked,
}
use vcs_srs_server.Voice.Server.Refinement.{Sessions, run_refines_sessions, session_run, view}
use vcs_srs_server.Tests.Packages.{byte_uuids}
use vcs_srs_server.Tests.Protocol.{voice_packet}
use vcs_srs_server.Tests.Yaml.{plain_saved}
use vcs_srs_server.Base.{
  ℕ, String, ◌≡◌, refl, ◌≢◌, ◌↔◌, true, false, some, List, [], ◌∷◌, arith, Uuid, Time, nat_eq,
  string_eq, All, Any, lookup, IsUnique,
}

abbrev pub client_named : String → ClientState
client_named name = record {
  name = name;
  unit_id = "AB1";
  coalition = "Blue";
  role = 1;
  last_update = 5;
}

-- Of the clients 7 and 9, the client 9 listens to 118.3 MHz.
abbrev pub two_known : ServerState
two_known = record {
  clients = (7, client_named "Ada") ∷ (9, client_named "Bob") ∷ [];
  radio_clients =
      (7, record { radios = []; muted = false })
      ∷ (
        9,
        record {
          radios =
              record {
                radio_id = 1;
                name = "COM1";
                frequency = thousandth 118300;
                enabled = true;
                is_intercom = false;
              }
              ∷ [];
          muted = false;
        },
      )
      ∷ [];
  banned_state = record { banned_clients = []; file = "bans.json" };
}

abbrev pub quiet : SettingsState
quiet = record { saved = plain_saved 20; file = "settings.yaml" }

abbrev registered : Server
registered = record {
  clients =
      (7, record { addr = "a:1"; last_seen = 100 })
      ∷ (9, record { addr = "b:2"; last_seen = 100 })
      ∷ [];
  running = true;
  stop_closed = false;
  bound = true;
}

registered-IsUnique : IsUnique registered.clients
unfolding lookup
registered-IsUnique = (refl, (refl, tt))

two_known-IsUnique : IsUnique two_known.clients
unfolding lookup
two_known-IsUnique = (refl, (refl, tt))

no_test_frequency : is_frequency_test (frequency_as_float32 voice_packet) quiet ≡ false
unfolding is_frequency_test default_settings contains_float
no_test_frequency = refl

abbrev speaker : Client
speaker = record { addr = "a:1"; last_seen = 100 }

finds_speaker : lookup 7 registered.clients ≡ some speaker
unfolding lookup
finds_speaker = refl

abbrev hello_bytes : List ℕ
hello_bytes =
    86 ∷ 67 ∷ 83 ∷ 17 ∷ 0 ∷ 0 ∷ 0 ∷ 0 ∷ 0 ∷ 0 ∷ 0 ∷ 7 ∷ 0 ∷ 0 ∷ 0 ∷ 0 ∷ 0 ∷ 0 ∷ 0 ∷ 0 ∷ 0 ∷ 0 ∷ 0
    ∷ 0 ∷ 0 ∷ 0 ∷ 0 ∷ []

abbrev sweep_and_noise : List (Time × Event)
sweep_and_noise = (2000, ticked) ∷ (3000, received (1 ∷ []) "c:3" two_known quiet) ∷ []

abbrev hello_then_noise : List (Time × Event)
hello_then_noise = (100, received hello_bytes "a:1" two_known quiet) ∷ sweep_and_noise

noise_fails :
    (q : VcsPacket)
    → parse_packet byte_uuids (1 ∷ []) ≡ ok q
    → q.sender_id ≡ 7
    → q.type ≢ PacketType.bye
unfolding parse_packet
noise_fails q e i = absurd (ground arith)

sweep_and_noise-IsHarmless : All (IsHarmless byte_uuids 7 100) sweep_and_noise
sweep_and_noise-IsHarmless =
    ((omega arith, omega arith, tt), ((omega arith, omega arith, noise_fails), tt))

speaker-IsPresent : IsPresent byte_uuids 7 100 registered
speaker-IsPresent = (speaker, finds_speaker, omega arith)

broadcast_reaches_example :
    Any
      (λ e. e ≡ send "b:2" (serialize_packet byte_uuids voice_packet))
      (broadcast_voice byte_uuids voice_packet 7 two_known quiet registered)
    ↔ (((serialize_packet byte_uuids voice_packet) ≡ serialize_packet byte_uuids voice_packet)
        × ((i : Uuid) × (c : Client) × (c.addr ≡ "b:2")
            × (does_client_exist i two_known ≡ true)
            × IsListener 7
                (frequency_as_float32 voice_packet)
                (is_frequency_global (frequency_as_float32 voice_packet) quiet)
                two_known
                registered.clients
                i
                c))
broadcast_reaches_example =
    broadcast_reaches byte_uuids voice_packet 7 two_known quiet registered "b:2"
      (serialize_packet byte_uuids voice_packet) two_known-IsUnique no_test_frequency

run-IsPresent_example : (IsPresent byte_uuids) 7 100 ((run byte_uuids) registered sweep_and_noise)
run-IsPresent_example =
    run-IsPresent byte_uuids 7 100 registered sweep_and_noise registered-IsUnique
      sweep_and_noise-IsHarmless speaker-IsPresent

run_refines_sessions_example :
    ◌≡◌ {A = Sessions}
      (view (run byte_uuids registered hello_then_noise))
      (λ i. (session_run byte_uuids) registered.running i (view registered i) hello_then_noise)
run_refines_sessions_example =
    run_refines_sessions byte_uuids registered hello_then_noise registered-IsUnique
