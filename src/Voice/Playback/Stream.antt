-- ===== src/Voice/Playback/Stream.antt =====
-- voice/server.go: pcmStream, through which the speaker takes samples from the pipe. `pending` is
-- buf[pos:len]; moving it to the front of the buffer changes no byte of it. A sample is decoded by
-- the package beep from the `width` bytes that it takes.

use mathlib.Core.List.{append-nil, append_assoc}
use vcs_srs_server.Base.{
  ℕ, zero, suc, ◌≤◌, ◌<◌, ◌≡◌, refl, sym, ap, ◌∙◌, ◌⊎◌, inl, inr, Bool, true, false, List, [], ◌∷◌,
  ◌++◌, map, arith, ltb, if◌then◌else◌, Bool-cases, length, take, drop, take-append-drop,
  length-take, All, subst,
}

pub record PcmStream : Type 0 where
  pub pending : List ℕ
  pub failed : Bool

-- What a read from the pipe yields.
pub data PipeRead : Type 0 where
  bytes : List ℕ → PipeRead
  eof broken : PipeRead

module _ {S : Type 0} (width : ℕ) (decode : List ℕ → S) where
  -- The loop over the samples that are asked for: those decoded, and the bytes left.
  pub decode_samples : ℕ → List ℕ → List S × List ℕ
  decode_samples zero pending = ([], pending)
  decode_samples (suc n) pending =
      let (rest, left) = decode_samples n (drop width pending) in
      if ltb (length pending) width
      then ([], pending)
      else (decode (take width pending) ∷ rest, left)

  unfoldable pub decoded_from : ℕ → List ℕ → PcmStream → (List S × Bool) × PcmStream
  unfolding decode_samples
  decoded_from n pending s =
      let (samples, left) = decode_samples n pending in
      ((samples, true), record s { pending = left })

  -- Stream: the samples, whether it goes on, and the stream.
  unfoldable pub stream : ℕ → PipeRead → PcmStream → (List S × Bool) × PcmStream
  unfolding decoded_from
  stream n read s =
      if ltb (length s.pending) width
      then elim read [
        | eof ↦ (([], false), s)
        | broken ↦ (([], false), record s { failed = true })
        | bytes chunk ↦ decoded_from n (s.pending ++ chunk) s
      ]
      else decoded_from n s.pending s

  -- The bytes of all frames, one after the other.
  abbrev pub joined : List (List ℕ) → List ℕ
  joined [] = []
  joined (f ∷ fs) = f ++ joined fs

  -- The samples are decoded from frames of `width` bytes that stand, one after the other, at the
  -- front of the bytes, and the bytes left follow them; they are as many as asked for, or too few bytes
  -- are left for one more.
  abbrev pub IsSplit : List ℕ → ℕ → List S → List ℕ → Type 0
  IsSplit pending n samples left =
      (frames : List (List ℕ)) × (samples ≡ map decode frames)
      × All (λ f. length f ≡ width) frames
      × (joined frames ++ left ≡ pending)
      × (length samples ≤ n)
      × ((length samples ≡ n) ⊎ (length left < width))

  decode_samples-IsSplit :
      (n : ℕ) (pending : List ℕ)
      → IsSplit pending n (decode_samples n pending).0 (decode_samples n pending).1
  unfolding decode_samples
  decode_samples-IsSplit zero pending = ([], refl, tt, refl, omega arith, inl refl)
  decode_samples-IsSplit (suc n) pending = elim (Bool-cases (ltb (length pending) width)) [
    | inl short ↦ rw short ([], refl, tt, refl, omega arith, inr (ground (arith, short)))
    | inr enough ↦
        let (fs, e, h, j, k, m) = decode_samples-IsSplit n (drop width pending) in
        rw enough (
          take width pending ∷ fs,
          ap (λ t. decode (take width pending) ∷ t) e,
          (ground (arith, length-take width pending), h),
          append_assoc (take width pending) (joined fs) _
              ∙ ap (λ t. take width pending ++ t) j
              ∙ take-append-drop width pending,
          omega (arith, k),
          ground (arith, m),
        )
  ]

  abbrev bytes_of : PipeRead → List ℕ
  bytes_of (bytes chunk) = chunk
  bytes_of eof = []
  bytes_of broken = []

  -- What a call takes from the pipe: nothing while a whole sample is pending.
  abbrev pub arrived : PipeRead → PcmStream → List ℕ
  arrived read s = if ltb (length s.pending) width then bytes_of read else []

  stream_short :
      (n : ℕ) (chunk : List ℕ) (s : PcmStream)
      → ltb (length s.pending) width ≡ true
      → IsSplit
          (s.pending ++ chunk)
          n
          (stream n (bytes chunk) s).0.0
          (stream n (bytes chunk) s).1.pending
  unfolding stream decoded_from
  stream_short n chunk s short = rw short (decode_samples-IsSplit n (s.pending ++ chunk))

  -- No byte is lost, repeated or moved: a call that goes on has decoded, from the front, the pending
  -- bytes followed by those that the pipe yielded (if less than a sample was pending), as many samples
  -- as were asked for or as the bytes suffice for, and the rest stays pending.
  pub stream-IsSplit :
      (n : ℕ) (read : PipeRead) (s : PcmStream)
      → (stream n read s).0.1 ≡ true
      → IsSplit (s.pending ++ arrived read s) n (stream n read s).0.0 (stream n read s).1.pending
  unfolding stream decoded_from
  stream-IsSplit n (bytes chunk) s on = elim (Bool-cases (ltb (length s.pending) width)) [
    | inr enough ↦ rw (enough, append-nil) (decode_samples-IsSplit n s.pending)
    | inl short ↦
        subst
          (λ b.
            IsSplit (s.pending ++ (if b then chunk else [])) n (stream n (bytes chunk) s).0.0
              (stream n (bytes chunk) s).1.pending)
          (sym short) (stream_short n chunk s short)
  ]
  stream-IsSplit n eof s on = elim (Bool-cases (ltb (length s.pending) width)) [
    | inr enough ↦ rw (enough, append-nil) (decode_samples-IsSplit n s.pending)
    | inl short ↦ absurd (ground arith)
  ]
  stream-IsSplit n broken s on = elim (Bool-cases (ltb (length s.pending) width)) [
    | inr enough ↦ rw (enough, append-nil) (decode_samples-IsSplit n s.pending)
    | inl short ↦ absurd (ground arith)
  ]
