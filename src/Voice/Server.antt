-- ===== src/Voice/Server.antt =====
-- voice/server.go: the voice clients and the handlers of datagrams. A handler is one step: what it
-- does under separate locks is taken together. Sending is an effect whose failure is only logged.
-- The socket and the control connection of a distributed server stay outside.
pub mod Handlers
pub mod Broadcast
pub mod Sessions
pub mod Refinement
use vcs_srs_server.Float32.{Float32, thousandth}
use vcs_srs_server.State.Server.{
  ClientState, ServerState, does_client_exist, get_all_clients, is_listening_on_frequency,
}
use vcs_srs_server.State.Settings.{SettingsState, is_frequency_global, is_frequency_test}
use vcs_srs_server.Voice.Protocol.{
  UuidBytes, VcsPacket, err, new_vcs_hello_ack_packet, new_vcs_keepalive_packet, ok, parse_packet,
  serialize_packet,
}
use vcs_srs_server.Voice.Protocol.PacketType
use vcs_srs_server.Base.{
  ℕ, ◌+◌, String, Bool, true, false, not, ◌&&◌, none, some, List, [], ◌∷◌, ◌++◌, map, Uuid, Time,
  minute, Outcome, returns, panics, ltb, if◌then◌else◌, ◌==◌, nat_eq, string_eq, length, Map,
  lookup, insert, delete, retain,
}

-- `addr` is the text of a *net.UDPAddr.
pub record Client : Type 0 where
  pub addr : String
  pub last_seen : Time

-- `stop_closed` says that stopChan is closed; `bound` that there is a socket.
pub record Server : Type 0 where
  pub clients : Map Uuid Client
  pub running : Bool
  pub stop_closed : Bool
  pub bound : Bool

-- What a handler does beside its change of the state.
pub data Effect : Type 0 where
  send : String → List ℕ → Effect
  play : List ℕ → Effect

abbrev pub Step : Type 0
Step = Server × List Effect

unfoldable pub new_server : Server
new_server = record { clients = []; running = false; stop_closed = false; bound = false }

-- Listen, once the socket is bound.
unfoldable pub listen : Server → Server
listen v = record v { running = true; bound = true }

-- FrequencyAsFloat32
abbrev pub frequency_as_float32 : VcsPacket → Float32
frequency_as_float32 p = thousandth p.frequency

-- The loop of GetListeningClients over the clients of the server.
unfoldable pub listeners :
    List (Uuid × ClientState) → Uuid → Float32 → Bool → ServerState → Map Uuid Client → List Client
listeners [] sender f global s registered = []
listeners ((i, _) ∷ rest) sender f global s registered =
    let others = listeners rest sender f global s registered in
    if i == sender
    then others
    else if is_listening_on_frequency i sender f global s
    then elim (lookup i registered) [ none ↦ others | some client ↦ client ∷ others ]
    else others

-- On a test frequency the payload is played here and nobody listens.
unfoldable pub get_listening_clients :
    VcsPacket → Uuid → ServerState → SettingsState → Server → List Client × List Effect
get_listening_clients packet sender s settings v =
    let f = frequency_as_float32 packet in
    if is_frequency_test f settings
    then elim (lookup packet.sender_id v.clients) [
      | some _ ↦ ([], play packet.payload ∷ [])
      | none ↦ ([], [])
    ]
    else (listeners (get_all_clients s) sender f (is_frequency_global f settings) s v.clients, [])

unfoldable pub disconnect_client : Uuid → Server → Server
disconnect_client i v = elim (lookup i v.clients) [
  | none ↦ v
  | some _ ↦ record v { clients = delete i v.clients }
]

unfoldable pub get_connected_clients : Server → List Uuid
get_connected_clients v = map (λ c. c.0) v.clients

unfoldable pub get_client_count : Server → ℕ
get_client_count v = length v.clients

-- A client is stale when its last packet is more than a minute old.
unfoldable pub is_stale : Time → Client → Bool
is_stale now client = ltb (client.last_seen + minute) now

unfoldable pub cleanup : Time → Server → Server
unfolding is_stale
cleanup now v = record v { clients = retain (λ _ client. not (is_stale now client)) v.clients }

-- Stop; `close_fails` is the answer of the socket. Whether there is an error, and the server. To
-- close stopChan again is a panic.
unfoldable pub stop : Bool → Server → Outcome (Bool × Server)
stop close_fails v =
    if not v.running
    then returns (false, v)
    else if v.stop_closed
    then panics
    else if v.bound && close_fails
    then returns (true, record v { stop_closed = true })
    else returns (false, record v { stop_closed = true; running = false })

module _ (u : UuidBytes) where
  unfoldable pub handle_hello_packet : VcsPacket → String → Time → ServerState → Server → Step
  handle_hello_packet packet addr now s v =
      if not (does_client_exist packet.sender_id s) then (v, []) else (
        record v {
          clients = insert packet.sender_id (record { addr = addr; last_seen = now }) v.clients;
        },
        send addr (serialize_packet u (new_vcs_hello_ack_packet packet.sender_id)) ∷ [],
      )

  unfoldable pub handle_keepalive_packet : VcsPacket → String → Time → Server → Step
  handle_keepalive_packet packet addr now v = elim (lookup packet.sender_id v.clients) [
    | none ↦ (v, [])
    | some client ↦ (
      record v { clients = insert packet.sender_id (record client { last_seen = now }) v.clients },
      send addr (serialize_packet u (new_vcs_keepalive_packet packet.sender_id)) ∷ [],
    )
  ]

  unfoldable pub broadcast_voice :
      VcsPacket → Uuid → ServerState → SettingsState → Server → List Effect
  broadcast_voice packet sender s settings v =
      let (clients, played) = get_listening_clients packet sender s settings v in
      played ++ map (λ (c : Client). send c.addr (serialize_packet u packet)) clients

  unfoldable pub handle_voice_packet :
      VcsPacket → Time → ServerState → SettingsState → Server → Step
  handle_voice_packet packet now s settings v = elim (lookup packet.sender_id v.clients) [
    | none ↦ (v, [])
    | some client ↦
        let seen : Server = record v {
          clients = insert packet.sender_id (record client { last_seen = now }) v.clients;
        } in
        (seen, broadcast_voice packet packet.sender_id s settings seen)
  ]

  unfoldable pub handle_goodbye_packet : VcsPacket → Server → Step
  handle_goodbye_packet packet v = (disconnect_client packet.sender_id v, [])

  unfoldable pub dispatch : VcsPacket → String → Time → ServerState → SettingsState → Server → Step
  dispatch packet addr now s settings v =
      if packet.type == PacketType.hello
      then handle_hello_packet packet addr now s v
      else if packet.type == PacketType.voice
      then handle_voice_packet packet now s settings v
      else if packet.type == PacketType.bye
      then handle_goodbye_packet packet v
      else if packet.type == PacketType.keepalive
      then handle_keepalive_packet packet addr now v
      else (v, [])

  unfoldable pub handle_packet :
      List ℕ → String → Time → ServerState → SettingsState → Server → Step
  handle_packet bytes addr now s settings v =
      if not v.running then (v, []) else elim (parse_packet u bytes) [
        | err _ ↦ (v, [])
        | ok packet ↦ dispatch packet addr now s settings v
      ]
