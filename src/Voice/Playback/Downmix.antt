-- ===== src/Voice/Playback/Downmix.antt =====
-- The mean of two channels, and that playback stays within its buffer.
use vcs_srs_server.Base.Bits.{shifted-bit_or}
use vcs_srs_server.Voice.Playback.{
  Decoded, Player, downmix_stereo_s16le_to_mono, frame_samples, half, little_endian_16,
  max_opus_frame_size, mean16, min_celt_config, pcm_of, play_voice_data, prepend, signed16,
  start_player, ◌+ℤ◌,
}
use vcs_srs_server.Base.{
  ℕ, zero, suc, ◌*◌, ◌/◌, ◌%◌, ◌^◌, ◌≤◌, ◌<◌, ◌≡◌, refl, ◌∙◌, inl, inr, Bool, Option, some, List,
  [], ◌∷◌, arith, Outcome, returns, panics, ltb, Bool-cases, Option-cases, length, take,
  length-take, All,
}

-- The mean of two int16 values does not overflow: it is a word of 16 bits, which stands for half of
-- their true sum, rounded towards zero.
pub signed16-mean16 :
    (l r : ℕ)
    → l < 2 ^ 16
    → r < 2 ^ 16
    → (mean16 l r < 2 ^ 16) × (signed16 (mean16 l r) ≡ half (signed16 l +ℤ signed16 r))
unfolding mean16
signed16-mean16 l r hl hr = (ground arith, ground arith)

mean16_same : (m : ℕ) → m < 2 ^ 16 → mean16 m m ≡ m
unfolding mean16
mean16_same m h = ground arith

prepend_ok :
    (x y k : ℕ) (o : Outcome (List ℕ))
    → (out : List ℕ) × (o ≡ returns out) × (length out ≡ 2 * k)
    → (out : List ℕ) × (prepend (x ∷ y ∷ []) o ≡ returns out) × (length out ≡ 2 * suc k)
unfolding prepend
prepend_ok x y k o (out, e, h) = (x ∷ y ∷ out, ground arith, omega arith)

-- The downmix reads four bytes for each sample: it returns two bytes for each exactly where the
-- input is long enough, and panics on a shorter one.
pub downmix_total :
    (bytes : List ℕ) (n : ℕ)
    → (4 * n ≤ length bytes
        → (out : List ℕ) × (downmix_stereo_s16le_to_mono bytes n ≡ returns out)
          × (length out ≡ 2 * n))
      × (length bytes < 4 * n → downmix_stereo_s16le_to_mono bytes n ≡ panics)
unfolding downmix_stereo_s16le_to_mono
downmix_total bytes zero = (λ h. ([], refl, refl), λ h. absurd (omega arith))
downmix_total (l0 ∷ l1 ∷ r0 ∷ r1 ∷ rest) (suc n) =
    let (fits, short) = downmix_total rest n in
    (λ h. prepend_ok _ _ n _ (fits (omega arith)), λ h. rw (short (omega arith)))
downmix_total _ (suc n) = (λ h. absurd (omega arith), λ h. refl)

-- The samples as bytes, once for mono, and twice for two equal channels.
abbrev mono : List ℕ → List ℕ
mono [] = []
mono (m ∷ ms) = m % 256 ∷ m / 2 ^ 8 % 256 ∷ mono ms

abbrev both_channels : List ℕ → List ℕ
both_channels [] = []
both_channels (m ∷ ms) = m % 256 ∷ m / 2 ^ 8 % 256 ∷ m % 256 ∷ m / 2 ^ 8 % 256 ∷ both_channels ms

little_endian_16_bytes : (m : ℕ) → m < 2 ^ 16 → little_endian_16 (m % 256) (m / 2 ^ 8 % 256) ≡ m
little_endian_16_bytes m h =
    shifted-bit_or 8 (m / 2 ^ 8 % 256) (m % 256) (omega arith) ∙ omega arith

-- Stereo sound whose channels are equal is downmixed to that channel, sample for sample.
pub downmix-both_channels :
    (ms : List ℕ)
    → All (λ m. m < 2 ^ 16) ms
    → downmix_stereo_s16le_to_mono (both_channels ms) (length ms) ≡ returns (mono ms)
unfolding downmix_stereo_s16le_to_mono
downmix-both_channels [] h = refl
downmix-both_channels (m ∷ ms) (h, hs) =
    rw (little_endian_16_bytes m h, mean16_same m h, downmix-both_channels ms hs) refl

frame_samples-le : (rate : ℕ) → rate ≤ 48000 → frame_samples rate ≤ 960
unfolding frame_samples
frame_samples-le rate h = ground arith

pcm_of_returns :
    (d : Decoded)
    → length d.out ≡ max_opus_frame_size
    → d.sample_rate ≤ 48000
    → (pcm : List ℕ) × (pcm_of d ≡ returns pcm)
unfolding pcm_of
pcm_of_returns d full slow =
    let samples = frame_samples d.sample_rate in
    let few = frame_samples-le d.sample_rate slow in
    elim (Bool-cases d.is_stereo) [
      | inl stereo ↦
          let (out, e, _) =
            (downmix_total (take (samples * 2 * 2) d.out) samples).0
              (omega (arith, length-take (samples * 2 * 2) d.out)) in
          (out, ground (arith, few, e))
      | inr mono ↦ (take (samples * 2 * 1) d.out, ground (arith, few))
    ]

play_cases :
    (decode : List ℕ → Option Decoded) (speaker_works : Bool) (toc : ℕ) (rest : List ℕ) (p : Player)
    (d : Decoded) (pcm : List ℕ)
    → decode (toc ∷ rest) ≡ some d
    → pcm_of d ≡ returns pcm
    → (out : List ℕ) × ((play_voice_data decode speaker_works (toc ∷ rest) p).1 ≡ returns out)
unfolding play_voice_data
play_cases decode speaker_works toc rest p d pcm e r =
    elim (Bool-cases (ltb (toc / 2 ^ 3) min_celt_config)) [
      | inl silk ↦ ([], ground arith)
      | inr celt ↦ elim (Bool-cases (start_player speaker_works p).has_pipe) [
        | inl ready ↦ (pcm, ground arith)
        | inr mute ↦ ([], ground arith)
      ]
    ]

-- With a decoder that fills the buffer of 11520 bytes at a rate of at most 48 kHz, playback never
-- panics: whatever the payload, it returns.
pub play_voice_data_returns :
    (decode : List ℕ → Option Decoded) (speaker_works : Bool) (payload : List ℕ) (p : Player)
    → ((d : Decoded)
        → decode payload ≡ some d
        → (length d.out ≡ max_opus_frame_size) × (d.sample_rate ≤ 48000))
    → (pcm : List ℕ) × ((play_voice_data decode speaker_works payload p).1 ≡ returns pcm)
unfolding play_voice_data
play_voice_data_returns decode speaker_works [] p decoder = ([], refl)
play_voice_data_returns decode speaker_works (toc ∷ rest) p decoder =
    elim (Option-cases (decode (toc ∷ rest))) [
      | inl e ↦ ([], ground arith)
      | inr (d, e) ↦
          let (full, slow) = decoder d e in
          let (pcm, r) = pcm_of_returns d full slow in
          play_cases decode speaker_works toc rest p d pcm e r
    ]
