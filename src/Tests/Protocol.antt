-- ===== src/Tests/Protocol.antt =====
-- A voice packet with a payload of two bytes, on 118.3 MHz.
use vcs_srs_server.Voice.Protocol.{IsByte, VcsPacket, magic_vcs, ok, parse_packet, serialize_packet}
use vcs_srs_server.Voice.Protocol.RoundTrip.{parse-serialize, serialize-parse}
use vcs_srs_server.Voice.Protocol.Layout.{IsWellFormed}
use vcs_srs_server.Tests.Packages.{byte_uuids, byte_uuids-IsUuidBytes}
use vcs_srs_server.Base.{ℕ, ◌≡◌, refl, Bool, true, ◌&&◌, List, [], ◌∷◌, arith, ltb, All}

abbrev pub voice_packet : VcsPacket
voice_packet = record {
  magic = magic_vcs;
  version = 1;
  type = 0;
  flags = 1;
  sequence = 70000;
  frequency = 118300;
  sender_id = 7;
  payload = 200 ∷ 100 ∷ [];
}

pub voice_packet-IsWellFormed : IsWellFormed voice_packet
voice_packet-IsWellFormed = record {
  vcs = refl;
  current = refl;
  nibble = omega arith;
  byte = omega arith;
  sequence_24 = omega arith;
  frequency_24 = omega arith;
  session = omega arith;
  bytes = (omega arith, (omega arith, tt));
}

abbrev datagram : List ℕ
datagram =
    86 ∷ 67 ∷ 83 ∷ 16 ∷ 1 ∷ 1 ∷ 17 ∷ 112 ∷ 1 ∷ 206 ∷ 28 ∷ 7 ∷ 0 ∷ 0 ∷ 0 ∷ 0 ∷ 0 ∷ 0 ∷ 0 ∷ 0 ∷ 0 ∷ 0
    ∷ 0 ∷ 0 ∷ 0 ∷ 0 ∷ 0 ∷ 200 ∷ 100 ∷ []

abbrev all_bytes : List ℕ → Bool
all_bytes [] = true
all_bytes (b ∷ bs) = ltb b 256 && all_bytes bs

IsByte-of_All : (bs : List ℕ) → all_bytes bs ≡ true → All IsByte bs
IsByte-of_All [] h = tt
IsByte-of_All (b ∷ bs) h = (ground arith, IsByte-of_All bs (ground arith))

datagram_parses : parse_packet byte_uuids datagram ≡ ok voice_packet
unfolding parse_packet
datagram_parses = refl

parse-serialize_example :
    parse_packet byte_uuids (serialize_packet byte_uuids voice_packet) ≡ ok voice_packet
parse-serialize_example =
    parse-serialize byte_uuids byte_uuids-IsUuidBytes voice_packet voice_packet-IsWellFormed

serialize-parse_example : serialize_packet byte_uuids voice_packet ≡ datagram
serialize-parse_example =
    serialize-parse byte_uuids byte_uuids-IsUuidBytes datagram voice_packet
      (IsByte-of_All datagram refl) datagram_parses
