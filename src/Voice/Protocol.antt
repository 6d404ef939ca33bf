-- ===== src/Voice/Protocol.antt =====
-- voice/protocol.go: the VCS datagram, its parser and its serializer. A byte slice is a list of
-- numbers below 256. `uuid.FromBytes` and `MarshalBinary` are those of the package uuid.
pub mod PacketType
pub mod Layout
pub mod RoundTrip
pub mod Flags
use Prim.Native.Nat.{bit_and, bit_or}
use vcs_srs_server.Base.{
  ℕ, zero, suc, ◌*◌, ◌/◌, ◌%◌, ◌^◌, ◌<◌, ◌≡◌, Bool, true, false, not, ◌&&◌, Option, none, some,
  List, [], ◌∷◌, ◌++◌, Uuid, length, take, drop, All, ltb, ◌==◌, nat_eq, if◌then◌else◌,
}

abbrev pub IsByte : ℕ → Type 0
IsByte b = b < 256

-- The package uuid, as the protocol uses it.
pub record UuidBytes : Type 0 where
  pub from_bytes : List ℕ → Option Uuid
  pub marshal_binary : Uuid → List ℕ

abbrev pub IsUuid : Uuid → Type 0
IsUuid u = u < 2 ^ 128

-- Its documented behaviour: the 16 bytes of the array, in order; other lengths are refused.
pub record IsUuidBytes (u : UuidBytes) : Type 0 where
  pub marshal_length : (i : Uuid) → length (u.marshal_binary i) ≡ 16
  pub marshal_bytes : (i : Uuid) → All IsByte (u.marshal_binary i)
  pub from_marshal : (i : Uuid) → IsUuid i → u.from_bytes (u.marshal_binary i) ≡ some i
  pub marshal_from :
      (bs : List ℕ)
      → length bs ≡ 16
      → All IsByte bs
      → (i : Uuid) × (u.from_bytes bs ≡ some i) × IsUuid i × (u.marshal_binary i ≡ bs)

abbrev pub current_version : ℕ
current_version = 1

abbrev pub header_size : ℕ
header_size = 27

-- `magic` is a [3]byte.
pub record VcsPacket : Type 0 where
  pub magic : ℕ × ℕ × ℕ
  pub version : ℕ
  pub type : ℕ
  pub flags : ℕ
  pub sequence : ℕ
  pub frequency : ℕ
  pub sender_id : Uuid
  pub payload : List ℕ

abbrev pub magic_vcs : ℕ × ℕ × ℕ
magic_vcs = (b'V', b'C', b'S')

unfoldable pub new_vcs_hello_ack_packet : Uuid → VcsPacket
new_vcs_hello_ack_packet client_id = record {
  magic = magic_vcs;
  version = current_version;
  type = PacketType.hello_ack;
  flags = 0;
  sequence = 0;
  frequency = 0;
  sender_id = client_id;
  payload = [];
}

unfoldable pub new_vcs_voice_packet : Uuid → ℕ → ℕ → List ℕ → VcsPacket
new_vcs_voice_packet client_id sequence frequency payload = record {
  magic = magic_vcs;
  version = current_version;
  type = PacketType.voice;
  flags = 0;
  sequence = sequence;
  frequency = frequency;
  sender_id = client_id;
  payload = payload;
}

unfoldable pub new_vcs_keepalive_packet : Uuid → VcsPacket
new_vcs_keepalive_packet client_id = record {
  magic = magic_vcs;
  version = current_version;
  type = PacketType.keepalive;
  flags = 0;
  sequence = 0;
  frequency = 0;
  sender_id = client_id;
  payload = [];
}

pub is_ptt_active : VcsPacket → Bool
is_ptt_active p = not (bit_and p.flags 0x01 == 0)

pub set_ptt : Bool → VcsPacket → VcsPacket
set_ptt active p =
    if active
    then record p { flags = bit_or p.flags 0x01 }
    else record p { flags = bit_and p.flags 0xfe }

pub is_intercom : VcsPacket → Bool
is_intercom p = not (bit_and p.flags 0x02 == 0)

pub set_intercom : Bool → VcsPacket → VcsPacket
set_intercom active p =
    if active
    then record p { flags = bit_or p.flags 0x02 }
    else record p { flags = bit_and p.flags 0xfd }

pub data ParseError : Type 0 where
  packet_too_short : ParseError
  invalid_magic : ℕ × ℕ × ℕ → ParseError
  unsupported_version : ℕ → ParseError
  invalid_session_id : ParseError

pub data Parsed : Type 0 where
  ok : VcsPacket → Parsed
  err : ParseError → Parsed

-- data[i]; the parser has tested the length.
abbrev pub byte_at : List ℕ → ℕ → ℕ
byte_at [] i = 0
byte_at (b ∷ bs) zero = b
byte_at (b ∷ bs) (suc i) = byte_at bs i

-- uint32(data[i])<<16 | uint32(data[i+1])<<8 | uint32(data[i+2])
abbrev pub big_endian_24 : ℕ → ℕ → ℕ → ℕ
big_endian_24 a b c = bit_or (bit_or (a * 2 ^ 16) (b * 2 ^ 8)) c

module _ (u : UuidBytes) where
  pub parse_session : VcsPacket → Option Uuid → Parsed
  parse_session p none = err invalid_session_id
  parse_session p (some i) = ok (record p { sender_id = i })

  unfoldable pub parse_packet : List ℕ → Parsed
  unfolding parse_session
  parse_packet bytes =
      let magic : ℕ × ℕ × ℕ = (byte_at bytes 0, byte_at bytes 1, byte_at bytes 2) in
      let version_type = byte_at bytes 3 in
      let version = bit_and (version_type / 2 ^ 4) 0x0f in
      if ltb (length bytes) header_size
      then err packet_too_short
      else if not (magic.0 == b'V' && magic.1 == b'C' && magic.2 == b'S')
      then err (invalid_magic magic)
      else if not (version == current_version)
      then err (unsupported_version version)
      else parse_session
          (record {
            magic = magic;
            version = version;
            type = bit_and version_type 0x0f;
            flags = byte_at bytes 4;
            sequence = big_endian_24 (byte_at bytes 5) (byte_at bytes 6) (byte_at bytes 7);
            frequency = big_endian_24 (byte_at bytes 8) (byte_at bytes 9) (byte_at bytes 10);
            sender_id = 0;
            payload = drop header_size bytes;
          })
          (u.from_bytes (take 16 (drop 11 bytes)))

  -- The array has header_size + len(payload) bytes; each copy fills its part of it.
  unfoldable pub serialize_packet : VcsPacket → List ℕ
  serialize_packet p =
      p.magic.0
      ∷ p.magic.1
      ∷ p.magic.2
      ∷ bit_or (p.version * 2 ^ 4 % 256) p.type
      ∷ p.flags
      ∷ (p.sequence / 2 ^ 16 % 256)
      ∷ (p.sequence / 2 ^ 8 % 256)
      ∷ (p.sequence % 256)
      ∷ (p.frequency / 2 ^ 16 % 256)
      ∷ (p.frequency / 2 ^ 8 % 256)
      ∷ (p.frequency % 256)
      ∷ (u.marshal_binary p.sender_id ++ p.payload)
