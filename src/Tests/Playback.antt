-- ===== src/Tests/Playback.antt =====
-- A decoder that fills its buffer, and a stream that reads four bytes.
use vcs_srs_server.Voice.Playback.{
  Decoded, Player, half, max_opus_frame_size, mean16, play_voice_data, signed16, ◌+ℤ◌,
}
use vcs_srs_server.Voice.Playback.Downmix.{play_voice_data_returns, signed16-mean16}
use vcs_srs_server.Voice.Playback.Stream.{
  IsSplit, PcmStream, arrived, bytes, decoded_from, stream, stream-IsSplit,
}
use vcs_srs_server.Base.{
  ℕ, zero, suc, ◌^◌, ◌≤◌, ◌<◌, ◌≡◌, refl, true, false, Option, some, List, [], ◌∷◌, ◌++◌, arith,
  returns, length,
}

abbrev zeros : ℕ → List ℕ
zeros zero = []
zeros (suc n) = 0 ∷ zeros n

length-zeros : (n : ℕ) → length (zeros n) ≡ n
length-zeros zero = refl
length-zeros (suc n) = omega (arith, length-zeros n)

abbrev silence : Decoded
silence = record { sample_rate = 48000; is_stereo = true; out = zeros 11520 }

abbrev silent_decoder : List ℕ → Option Decoded
silent_decoder payload = some silence

fills :
    (d : Decoded)
    → silent_decoder (200 ∷ []) ≡ some d
    → (length d.out ≡ max_opus_frame_size) × (d.sample_rate ≤ 48000)
fills d e = (ground (arith, length-zeros 11520), ground arith)

abbrev new_player : Player
new_player = record { started = false; has_pipe = false }

abbrev first_of : List ℕ → ℕ
first_of [] = 0
first_of (b ∷ bs) = b

abbrev one_pending : PcmStream
one_pending = record { pending = 1 ∷ []; failed = false }

goes_on : (stream 2 first_of 8 (bytes (2 ∷ 3 ∷ 4 ∷ [])) one_pending).0.1 ≡ true
unfolding stream decoded_from
goes_on = refl

play_voice_data_returns_example :
    (pcm : List ℕ) × ((play_voice_data silent_decoder true (200 ∷ []) new_player).1 ≡ returns pcm)
play_voice_data_returns_example =
    play_voice_data_returns silent_decoder true (200 ∷ []) new_player fills

stream-IsSplit_example :
    (IsSplit 2 first_of)
      (one_pending.pending ++ (arrived 2 first_of) (bytes (2 ∷ 3 ∷ 4 ∷ [])) one_pending)
      8
      ((stream 2 first_of) 8 (bytes (2 ∷ 3 ∷ 4 ∷ [])) one_pending).0.0
      ((stream 2 first_of) 8 (bytes (2 ∷ 3 ∷ 4 ∷ [])) one_pending).1.pending
stream-IsSplit_example = stream-IsSplit 2 first_of 8 (bytes (2 ∷ 3 ∷ 4 ∷ [])) one_pending goes_on

signed16-mean16_example :
    (mean16 65535 32768 < 2 ^ 16)
    × (signed16 (mean16 65535 32768) ≡ half (signed16 65535 +ℤ signed16 32768))
signed16-mean16_example = signed16-mean16 65535 32768 (ground arith) (ground arith)
