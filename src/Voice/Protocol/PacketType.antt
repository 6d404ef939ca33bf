-- ===== src/Voice/Protocol/PacketType.antt =====
-- The type PacketType of voice/protocol.go: a uint8 with named values.
use vcs_srs_server.Base.{ℕ, String, ◌==◌, nat_eq, if◌then◌else◌}

abbrev pub voice : ℕ
voice = 0

abbrev pub hello : ℕ
hello = 1

abbrev pub hello_ack : ℕ
hello_ack = 2

abbrev pub keepalive : ℕ
keepalive = 3

abbrev pub bye : ℕ
bye = 4

-- PacketType.String
unfoldable pub to_string : ℕ → String
to_string pt =
    if pt == voice
    then "VOICE"
    else if pt == hello
    then "HELLO"
    else if pt == hello_ack
    then "HELLO_ACK"
    else if pt == keepalive
    then "KEEPALIVE"
    else if pt == bye
    then "BYE"
    else "UNKNOWN"
