-- ===== src/Lib.antt =====
-- Verification library of the VCS SRS server (Go).
--
-- The server is a control server, to which clients log in and whose radio service they call over
-- gRPC, a voice server, which relays their UDP datagrams, and a window that shows and edits the
-- state of both. All parts share the clients and radios (state/server.go) and the settings
-- (state/settings.go), and tell each other of changes over a bus of events.
--
-- Which file models which part:
--   Voice/Protocol      voice/protocol.go: VCSPacket, ParsePacket, SerializePacket, the flags.
--   Voice/Server        voice/server.go: the handlers of datagrams, the sweep, Stop; a state is the
--                       record Server, a handler a step from it to a new one and its effects.
--   Voice/Playback      voice/server.go: PlayVoiceData, the downmix, pcmStream.
--   State/Server        state/server.go: ServerState, AddClient, IsListeningOnFrequency.
--   State/Bans          state/server.go: the ban file; app/app.go: what StartUp does with it.
--   State/Settings      state/settings.go: the settings, their defaults and their file.
--   Events              events/bus.go, events/events.go.
--   Utils/Auth, Keys    utils/auth.go: roles and tokens; the key files.
--   Utils/Slice         utils/slice.go: Remove.
--   Srs/Auth            srs/auth_service.go: InitAuth; Guest, Plugin and Select hold GuestLogin (with
--                       utils/general.go: HashPassword), Login (with srs/plugin_client.go: Login) and
--                       UnitSelect, and Connections initializePluginClients with the connecting of
--                       srs/plugin_client.go; Roles puts the calls in any order.
--   Srs/Checks          srs/utils.go.
--   Srs/Radio, Sync, Updates, Cleanup
--                       srs/srs_service.go: Disconnect, SyncClient, what a client updates, the
--                       cleanup routine.
--   Reconnection        voiceontrol/client.go, srs/plugin_client.go: handleReconnection.
--   Control             control/server.go: authInterceptor, Start, Stop, monitorHealth;
--                       control/health.go.
--   App                 app/clients.go, app/settings.go, services/settings.go,
--                       services/coalitions.go: what the window changes; Window: app/app.go,
--                       the loops that hand events on to it.
--   App/Servers, App/Signals
--                       app/server_control.go, app/app.go, state/admin.go, headless.go: how the three
--                       servers are started and stopped. Application holds what VCSApplication knows
--                       of them, and the goroutines that are not done; Reach tells what commands and
--                       goroutines come to in any order.
--   VoiceControl        voiceontrol/client.go, voiceontrol/service.go; Certificates holds
--                       voiceontrol/utils.go.
--   Float32, Disk       float32 as bit patterns; the package os as far as files are read and written.
--   Base                lists, maps, equality and bits, shared by all.
--   Tests               concrete packages and inputs.
--
-- Conventions. A Go map is an association list; what a range over it does is said of each entry, not
-- of the order. A call that may dereference nil returns an Outcome, a call that may wait for a mutex
-- that was left locked an Attempt. A call is one step: what it does under separate locks is taken
-- together. What gRPC does (whether Serve fails, whether the calls that GracefulStop waits for come to
-- an end) is an answer given to the step. Integers of w bits keep their wrap-around; the dates of a
-- token are cut to whole seconds. The loops of the sources range over lists and
-- are structural recursion, save handleReconnection, which runs on 21 rounds of fuel: it gives up
-- after twenty attempts. The publisher of events is modelled by its turns, each of which takes one
-- event from the queue.
--
-- Parameters, with what is relied on as hypotheses: uuid (IsUuidBytes, IsUuidText), yaml (IsYaml),
-- encoding/json (IsJson), jwt (IsJwt, and IsMatching for a pair of keys), encoding/pem (IsPem),
-- x509 (IsX509, IsRsa), bcrypt, diceware, the login plugins, opus and beep.
--
-- Not modelled: sockets, gRPC and TLS set-up, logging, the window itself, the REST router, the
-- flags. The commands that start and stop servers are one step each, so that two of them do not
-- interleave with each other.
pub mod App
pub mod Base
pub mod Control
pub mod Disk
pub mod Events
pub mod Float32
pub mod Reconnection
pub mod Srs
pub mod State
pub mod Tests
pub mod Utils
pub mod Voice
pub mod VoiceControl
