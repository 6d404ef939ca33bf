-- ===== src/Voice/Playback.antt =====
-- voice/server.go: local playback of a test transmission. The Opus decoder, the speaker and the
-- sample format are those of the packages opus and beep.
pub mod Downmix
pub mod Stream
use Prim.Native.Nat.{bit_or}
use vcs_srs_server.Base.{
  ℕ, zero, suc, ◌+◌, ◌-◌, ◌*◌, ◌/◌, ◌%◌, ◌^◌, Bool, true, not, Option, none, some, List, [], ◌∷◌,
  ◌++◌, Outcome, returns, panics, ltb, if◌then◌else◌, ◌==◌, nat_eq, string_eq, length, take,
}

-- Signed integers; `negsuc n` is -(n + 1).
pub data ℤ : Type 0 where
  pos : ℕ → ℤ
  negsuc : ℕ → ℤ

-- int16(w), for a bit pattern w below 2 ^ 16.
abbrev pub signed16 : ℕ → ℤ
signed16 w = if ltb w (2 ^ 15) then pos w else negsuc (2 ^ 16 - 1 - w)

-- uint16(m): the bit pattern of the low 16 bits.
abbrev pub unsigned16 : ℤ → ℕ
unsigned16 (pos n) = n % 2 ^ 16
unsigned16 (negsuc n) = 2 ^ 16 - 1 - n % 2 ^ 16

-- a + b, within int32.
infixl 65 ◌+ℤ◌
abbrev pub ◌+ℤ◌ : ℤ → ℤ → ℤ
pos a +ℤ pos b = pos (a + b)
pos a +ℤ negsuc b = if ltb b a then pos (a - b - 1) else negsuc (b - a)
negsuc a +ℤ pos b = if ltb a b then pos (b - a - 1) else negsuc (a - b)
negsuc a +ℤ negsuc b = negsuc (a + b + 1)

-- a / 2, which Go rounds towards zero.
abbrev pub half : ℤ → ℤ
half (pos n) = pos (n / 2)
half (negsuc n) = let k = (n + 1) / 2 in if k == 0 then pos 0 else negsuc (k - 1)

-- int16((int32(l) + int32(r)) / 2), as a bit pattern.
unfoldable pub mean16 : ℕ → ℕ → ℕ
mean16 l r = unsigned16 (half (signed16 l +ℤ signed16 r))

abbrev pub little_endian_16 : ℕ → ℕ → ℕ
little_endian_16 lo hi = bit_or lo (hi * 2 ^ 8)

unfoldable pub prepend : List ℕ → Outcome (List ℕ) → Outcome (List ℕ)
prepend xs panics = panics
prepend xs (returns ys) = returns (xs ++ ys)

-- Round i reads the four bytes from 4 * i on and writes two; what is left of the input is the list.
unfoldable pub downmix_stereo_s16le_to_mono : List ℕ → ℕ → Outcome (List ℕ)
unfolding prepend
downmix_stereo_s16le_to_mono bytes zero = returns []
downmix_stereo_s16le_to_mono (l0 ∷ l1 ∷ r0 ∷ r1 ∷ rest) (suc n) =
    let m = mean16 (little_endian_16 l0 l1) (little_endian_16 r0 r1) in
    prepend (m % 256 ∷ m / 2 ^ 8 % 256 ∷ []) (downmix_stereo_s16le_to_mono rest n)
downmix_stereo_s16le_to_mono _ (suc n) = panics

abbrev pub max_opus_frame_size : ℕ
max_opus_frame_size = 11520

abbrev pub min_celt_config : ℕ
min_celt_config = 16

abbrev pub samples_per_channel : ℕ
samples_per_channel = 960

-- What the decoder leaves: the sample rate of the bandwidth, the channels, and the whole buffer.
pub record Decoded : Type 0 where
  pub sample_rate : ℕ
  pub is_stereo : Bool
  pub out : List ℕ

-- `started`: playOnce has run. `has_pipe`: the speaker is there and the pipe to it open.
pub record Player : Type 0 where
  pub started : Bool
  pub has_pipe : Bool

-- The first call opens the speaker; a failure is final.
unfoldable pub start_player : Bool → Player → Player
start_player speaker_works p =
    if p.started then p else record { started = true; has_pipe = speaker_works }

unfoldable pub frame_samples : ℕ → ℕ
frame_samples sample_rate =
    let rate = if sample_rate == 0 then 48000 else sample_rate in
    if rate / 50 == 0 then samples_per_channel else rate / 50

unfoldable pub pcm_of : Decoded → Outcome (List ℕ)
pcm_of d =
    let samples = frame_samples d.sample_rate in
    let wanted = samples * 2 * (if d.is_stereo then 2 else 1) in
    let bytes_to_use = if ltb (length d.out) wanted then length d.out else wanted in
    if d.is_stereo
    then downmix_stereo_s16le_to_mono (take bytes_to_use d.out) samples
    else returns (take bytes_to_use d.out)

-- The samples for the pipe, if any; an error or a panic of the decoder ends the call quietly.
unfoldable pub play_voice_data :
    (List ℕ → Option Decoded) → Bool → List ℕ → Player → Player × Outcome (List ℕ)
play_voice_data decode speaker_works [] p = (p, returns [])
play_voice_data decode speaker_works (toc ∷ rest) p =
    let q = start_player speaker_works p in
    if ltb (toc / 2 ^ 3) min_celt_config
    then (p, returns [])
    else if not q.has_pipe
    then (q, returns [])
    else elim (decode (toc ∷ rest)) [ none ↦ (q, returns []) | some d ↦ (q, pcm_of d) ]
