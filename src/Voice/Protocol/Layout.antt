-- ===== src/Voice/Protocol/Layout.antt =====
-- The header of a VCS packet in plain arithmetic.
use Prim.Native.Nat.{bit_and, bit_or}
use vcs_srs_server.Base.Bits.{bit_or-shifted, low_nibble, high_nibble}
use vcs_srs_server.Voice.Protocol.{
  IsByte, IsUuid, VcsPacket, magic_vcs, current_version, big_endian_24,
}
use vcs_srs_server.Base.{
  ℕ, ◌+◌, ◌*◌, ◌/◌, ◌%◌, ◌^◌, ◌<◌, ◌≡◌, ◌∙◌, List, ◌++◌, arith, length, take, drop, take-append,
  drop-append, All,
}

-- What a packet on the wire can hold.
pub record IsWellFormed (p : VcsPacket) : Type 0 where
  pub vcs : p.magic ≡ magic_vcs
  pub current : p.version ≡ current_version
  pub nibble : p.type < 16
  pub byte : p.flags < 256
  pub sequence_24 : p.sequence < 2 ^ 24
  pub frequency_24 : p.frequency < 2 ^ 24
  pub session : IsUuid p.sender_id
  pub bytes : All IsByte p.payload

pub big_endian_24-add :
    (a b c : ℕ) → b < 256 → c < 256 → big_endian_24 a b c ≡ a * 65536 + b * 256 + c
big_endian_24-add a b c hb hc =
    let high : bit_or (a * 65536) (b * 256) ≡ (a * 256 + b) * 256 =
      bit_or-shifted 16 a (b * 256) (omega arith) ∙ omega arith in
    rw high (bit_or-shifted 8 (a * 256 + b) c hc ∙ omega arith)

-- The three bytes of a 24-bit field, put together again.
pub big_endian_24_bytes :
    (n : ℕ) → n < 2 ^ 24 → big_endian_24 (n / 2 ^ 16 % 256) (n / 2 ^ 8 % 256) (n % 256) ≡ n
big_endian_24_bytes n h =
    big_endian_24-add (n / 65536 % 256) (n / 256 % 256) (n % 256) (omega arith) (omega arith)
    ∙ omega arith

pub version_type_byte : (t : ℕ) → t < 16 → bit_or (1 * 2 ^ 4 % 256) t ≡ 16 + t
version_type_byte t h = bit_or-shifted 4 1 t h

pub version_of_byte : (b : ℕ) → b < 256 → bit_and (b / 2 ^ 4) 0x0f ≡ b / 16
version_of_byte b h = high_nibble b h

pub type_of_byte : (b : ℕ) → b < 256 → bit_and b 0x0f ≡ b % 16
type_of_byte b h = low_nibble b h

-- The session identifier stands behind the eleven first bytes, the payload behind it.
pub take_session : (s rest : List ℕ) → length s ≡ 16 → take 16 (s ++ rest) ≡ s
take_session s rest h = rw (← h) (take-append s rest)

pub drop_session : (s rest : List ℕ) → length s ≡ 16 → drop 16 (s ++ rest) ≡ rest
drop_session s rest h = rw (← h) (drop-append s rest)
