-- ===== src/Voice/Server/Handlers.antt =====
-- What each datagram does to the voice clients.
use vcs_srs_server.State.Server.{ServerState, does_client_exist}
use vcs_srs_server.State.Settings.{SettingsState}
use vcs_srs_server.Voice.Protocol.{
  IsUuid, IsUuidBytes, UuidBytes, VcsPacket, new_vcs_hello_ack_packet, ok, parse_packet,
  serialize_packet,
}
use vcs_srs_server.Voice.Protocol.PacketType
use vcs_srs_server.Voice.Protocol.Layout.{IsWellFormed}
use vcs_srs_server.Voice.Protocol.RoundTrip.{Parsed-cases, parse-serialize}
use vcs_srs_server.Voice.Server.{
  Client, Server, disconnect_client, dispatch, handle_goodbye_packet, handle_hello_packet,
  handle_keepalive_packet, handle_packet, handle_voice_packet, send,
}
use vcs_srs_server.Base.{
  ℕ, String, ◌≡◌, refl, ◌≢◌, inl, inr, true, Option, none, some, List, [], ◌∷◌, arith, Uuid, Time,
  if◌then◌else◌, ◌==◌, nat_eq, string_eq, Option-cases, lookup, lookup-insert, map_laws,
}

ack-IsWellFormed : (i : Uuid) → IsUuid i → IsWellFormed (new_vcs_hello_ack_packet i)
unfolding new_vcs_hello_ack_packet
ack-IsWellFormed i h = record {
  vcs = refl;
  current = refl;
  nibble = omega arith;
  byte = omega arith;
  sequence_24 = omega arith;
  frequency_24 = omega arith;
  session = h;
  bytes = tt;
}

-- A packet from a registered client renews its time and keeps its address.
abbrev pub touched : Time → Option Client → Option Client
touched now none = none
touched now (some c) = some (record c { last_seen = now })

-- The entry of a packet's sender after the packet, from the one before.
abbrev pub sender_entry : VcsPacket → String → Time → ServerState → Option Client → Option Client
sender_entry p addr now s before =
    if p.type == PacketType.hello
    then (if does_client_exist p.sender_id s
        then some (record { addr = addr; last_seen = now })
        else before)
    else if p.type == PacketType.voice
    then touched now before
    else if p.type == PacketType.bye
    then none
    else if p.type == PacketType.keepalive
    then touched now before
    else before

module _ (u : UuidBytes) where
  -- After a packet the sender has the entry that its kind asks for, and every other client the
  -- entry that it had.
  pub lookup-dispatch :
      (p : VcsPacket) (addr : String) (now : Time) (s : ServerState) (settings : SettingsState)
      (v : Server) (j : Uuid)
      → lookup j (dispatch u p addr now s settings v).0.clients ≡ (
          if p.sender_id == j
          then sender_entry p addr now s (lookup j v.clients)
          else lookup j v.clients)
  unfolding dispatch handle_hello_packet handle_voice_packet handle_goodbye_packet
      handle_keepalive_packet disconnect_client
  lookup-dispatch p addr now s settings v j =
      let at = λ (c : Client). lookup-insert p.sender_id j c v.clients in
      elim (Option-cases (lookup p.sender_id v.clients)) [
        | inl e ↦ ground (arith, at (record { addr = addr; last_seen = now }))
        | inr (c, e) ↦ grind (
          map_laws,
          at (record { addr = addr; last_seen = now }),
          at (record c { last_seen = now }),
        )
      ]

  -- A hello from a client that the control server knows registers it at the address that the
  -- datagram came from, leaves every other client alone, and is answered there by a datagram that
  -- parses as the acknowledgment for that client.
  pub hello_registers :
      (laws : IsUuidBytes u) (packet : VcsPacket) (addr : String) (now : Time) (s : ServerState)
      (v : Server)
      → IsUuid packet.sender_id
      → does_client_exist packet.sender_id s ≡ true
      → let (after, effects) = handle_hello_packet u packet addr now s v in
        ((j : Uuid)
          → lookup j after.clients ≡ (
              if packet.sender_id == j
              then some (record { addr = addr; last_seen = now })
              else lookup j v.clients))
        × ((bytes : List ℕ) × (effects ≡ send addr bytes ∷ [])
            × (parse_packet u bytes ≡ ok (new_vcs_hello_ack_packet packet.sender_id)))
  unfolding handle_hello_packet
  hello_registers laws packet addr now s v wide known = (
    λ j. grind map_laws,
    (
      serialize_packet u (new_vcs_hello_ack_packet packet.sender_id),
      ground arith,
      parse-serialize u laws _ (ack-IsWellFormed packet.sender_id wide),
    ),
  )

  -- A client that is not registered stays so unless the server runs and the datagram
  -- is a hello of a client that the control server knows; then it is registered at the address of
  -- the datagram.
  pub only_hello_admits :
      (bytes : List ℕ) (addr : String) (now : Time) (s : ServerState) (settings : SettingsState)
      (v : Server) (i : Uuid) (c : Client)
      → lookup i v.clients ≡ none
      → lookup i (handle_packet u bytes addr now s settings v).0.clients ≡ some c
      → (c ≡ record { addr = addr; last_seen = now })
        × (does_client_exist i s ≡ true)
        × (v.running ≡ true)
        × ((p : VcsPacket) × (parse_packet u bytes ≡ ok p)
            × (p.type ≡ PacketType.hello)
            × (p.sender_id ≡ i))
  unfolding handle_packet
  only_hello_admits bytes addr now s settings v i c absent admitted =
      elim (Parsed-cases (parse_packet u bytes)) [
        | inl (p, e) ↦
            let after = lookup-dispatch p addr now s settings v i in
            (
              ground (arith, after),
              ground (arith, after),
              ground arith,
              (p, e, ground (arith, after), ground (arith, after)),
            )
        | inr (x, e) ↦ absurd (ground arith)
      ]

  -- A datagram of another kind from a client that is not registered has no effect at all.
  pub unregistered_ignored :
      (packet : VcsPacket) (addr : String) (now : Time) (s : ServerState) (settings : SettingsState)
      (v : Server)
      → packet.type ≢ PacketType.hello
      → lookup packet.sender_id v.clients ≡ none
      → dispatch u packet addr now s settings v ≡ (v, [])
  unfolding dispatch handle_voice_packet handle_goodbye_packet handle_keepalive_packet
      disconnect_client
  unregistered_ignored packet addr now s settings v other absent = ground arith
