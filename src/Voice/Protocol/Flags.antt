-- ===== src/Voice/Protocol/Flags.antt =====
-- The flag bits of a packet: push-to-talk and intercom. Each fact about one byte is checked by
-- evaluation at all 256 values.
use Prim.Native.Nat.{bit_and, bit_or}
use vcs_srs_server.Voice.Protocol.{VcsPacket, is_intercom, is_ptt_active, set_intercom, set_ptt}
use vcs_srs_server.Voice.Protocol.Layout.{IsWellFormed}
use vcs_srs_server.Base.{
  ℕ, ◌/◌, ◌<◌, ◌≡◌, refl, Bool, true, false, arith, agree_below, agree_below→eq,
}

-- How a mask `m` and its complement `c` act on a byte, beside another bit `o`.
record IsBit (m c o : ℕ) : Type 0 where
  sets : (b : ℕ) → b < 256 → bit_and (bit_or b m) m ≡ m
  clears : (b : ℕ) → b < 256 → bit_and (bit_and b c) m ≡ 0
  set_keeps : (b : ℕ) → b < 256 → bit_and (bit_or b m) o ≡ bit_and b o
  clear_keeps : (b : ℕ) → b < 256 → bit_and (bit_and b c) o ≡ bit_and b o
  set_fits : (b : ℕ) → b < 256 → bit_or b m / 256 ≡ 0
  clear_fits : (b : ℕ) → b < 256 → bit_and b c / 256 ≡ 0

ptt-IsBit : IsBit 0x01 0xfe 0x02
unfolding agree_below
ptt-IsBit = record {
  sets = agree_below→eq _ _ 256 refl;
  clears = agree_below→eq _ _ 256 refl;
  set_keeps = agree_below→eq _ _ 256 refl;
  clear_keeps = agree_below→eq _ _ 256 refl;
  set_fits = agree_below→eq _ _ 256 refl;
  clear_fits = agree_below→eq _ _ 256 refl;
}

intercom-IsBit : IsBit 0x02 0xfd 0x01
unfolding agree_below
intercom-IsBit = record {
  sets = agree_below→eq _ _ 256 refl;
  clears = agree_below→eq _ _ 256 refl;
  set_keeps = agree_below→eq _ _ 256 refl;
  clear_keeps = agree_below→eq _ _ 256 refl;
  set_fits = agree_below→eq _ _ 256 refl;
  clear_fits = agree_below→eq _ _ 256 refl;
}

-- Setting or clearing push-to-talk decides what IsPTTActive answers, leaves the intercom bit as it
-- was, and keeps the packet well formed.
pub set_ptt_lem :
    (active : Bool) (p : VcsPacket)
    → IsWellFormed p
    → (is_ptt_active (set_ptt active p) ≡ active)
      × (is_intercom (set_ptt active p) ≡ is_intercom p)
      × IsWellFormed (set_ptt active p)
unfolding is_ptt_active set_ptt is_intercom
set_ptt_lem true p w = ground (
  arith,
  ptt-IsBit.sets p.flags w.byte,
  ptt-IsBit.set_keeps p.flags w.byte,
  ptt-IsBit.set_fits p.flags w.byte,
)
set_ptt_lem false p w = ground (
  arith,
  ptt-IsBit.clears p.flags w.byte,
  ptt-IsBit.clear_keeps p.flags w.byte,
  ptt-IsBit.clear_fits p.flags w.byte,
)

-- The same of the intercom bit, beside push-to-talk.
pub set_intercom_lem :
    (active : Bool) (p : VcsPacket)
    → IsWellFormed p
    → (is_intercom (set_intercom active p) ≡ active)
      × (is_ptt_active (set_intercom active p) ≡ is_ptt_active p)
      × IsWellFormed (set_intercom active p)
unfolding is_ptt_active set_intercom is_intercom
set_intercom_lem true p w = ground (
  arith,
  intercom-IsBit.sets p.flags w.byte,
  intercom-IsBit.set_keeps p.flags w.byte,
  intercom-IsBit.set_fits p.flags w.byte,
)
set_intercom_lem false p w = ground (
  arith,
  intercom-IsBit.clears p.flags w.byte,
  intercom-IsBit.clear_keeps p.flags w.byte,
  intercom-IsBit.clear_fits p.flags w.byte,
)
