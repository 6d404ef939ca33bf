-- ===== src/Voice/Protocol/RoundTrip.antt =====
-- `parse_packet` and `serialize_packet` are inverse to one another.
use Prim.Native.Nat.{bit_or}
use vcs_srs_server.Voice.Protocol.{
  IsByte, IsUuid, IsUuidBytes, ParseError, Parsed, UuidBytes, VcsPacket, byte_at, err, ok,
  parse_packet, serialize_packet,
}
use vcs_srs_server.Voice.Protocol.Layout.{
  IsWellFormed, big_endian_24-add, big_endian_24_bytes, drop_session, take_session, type_of_byte,
  version_of_byte, version_type_byte,
}
use vcs_srs_server.Base.{
  ℕ, ◌+◌, ◌*◌, ◌/◌, ◌%◌, ◌^◌, ◌≤◌, ◌<◌, ◌≡◌, refl, ◌↔◌, ◌⊎◌, inl, inr, some, List, ◌∷◌, ◌++◌, arith,
  Uuid, length, take, drop, length-append, take-append-drop, length-take, All, All-take, All-drop,
}

le-total : (a b : ℕ) → (a ≤ b) ⊎ (b < a)
le-total a b = omega arith

pub Parsed-cases : (r : Parsed) → ((p : VcsPacket) × (r ≡ ok p)) ⊎ ((e : ParseError) × (r ≡ err e))
Parsed-cases (ok p) = inl (p, refl)
Parsed-cases (err e) = inr (e, refl)

module _ (u : UuidBytes) (laws : IsUuidBytes u) where
  -- A well-formed packet is read back from its bytes as it was, with nothing lost.
  pub parse-serialize :
      (p : VcsPacket) → IsWellFormed p → parse_packet u (serialize_packet u p) ≡ ok p
  unfolding parse_packet serialize_packet
  parse-serialize p w =
      let session = u.marshal_binary p.sender_id in
      let byte : bit_or (p.version * 2 ^ 4 % 256) p.type ≡ 16 + p.type =
        rw w.current (version_type_byte p.type w.nibble) in
      ground (
        arith,
        byte,
        version_of_byte (16 + p.type),
        type_of_byte (16 + p.type),
        big_endian_24_bytes p.sequence,
        big_endian_24_bytes p.frequency,
        length-append session p.payload,
        laws.marshal_length p.sender_id,
        take_session session p.payload,
        drop_session session p.payload,
        laws.from_marshal p.sender_id w.session,
      )

  -- The 16 bytes behind the eleventh are the identifier that `from_bytes` finds in them.
  session_of :
      (rest : List ℕ)
      → 16 ≤ length rest
      → All IsByte rest
      → (i : Uuid) × (u.from_bytes (take 16 rest) ≡ some i)
        × IsUuid i
        × (u.marshal_binary i ++ drop 16 rest ≡ rest)
  session_of rest h b =
      let (i, found, fits, back) =
        laws.marshal_from (take 16 rest) (omega (arith, length-take 16 rest))
          (All-take IsByte 16 rest b) in
      (i, found, fits, rw back (take-append-drop 16 rest))

  -- An accepted datagram of bytes yields a well-formed packet: the magic, the version, and each
  -- field within its width.
  pub parse-IsWellFormed :
      (bs : List ℕ) (p : VcsPacket) → All IsByte bs → parse_packet u bs ≡ ok p → IsWellFormed p
  unfolding parse_packet
  parse-IsWellFormed (a ∷ b ∷ c ∷ d ∷ f ∷ s2 ∷ s1 ∷ s0 ∷ f2 ∷ f1 ∷ f0 ∷ rest) p h e =
      elim (le-total 16 (length rest)) [
        | inl long ↦ ground (
          arith,
          session_of rest long,
          version_of_byte d,
          type_of_byte d,
          big_endian_24-add s2 s1 s0,
          big_endian_24-add f2 f1 f0,
          All-drop IsByte 16 rest,
        )
        | inr short ↦ ground arith
      ]
  parse-IsWellFormed _ p h e = ground arith

  -- What the parser accepts, the serializer writes back byte for byte.
  pub serialize-parse :
      (bs : List ℕ) (p : VcsPacket)
      → All IsByte bs
      → parse_packet u bs ≡ ok p
      → serialize_packet u p ≡ bs
  unfolding parse_packet serialize_packet
  serialize-parse (a ∷ b ∷ c ∷ d ∷ f ∷ s2 ∷ s1 ∷ s0 ∷ f2 ∷ f1 ∷ f0 ∷ rest) p h e =
      elim (le-total 16 (length rest)) [
        | inl long ↦ ground (
          arith,
          session_of rest long,
          version_of_byte d,
          type_of_byte d,
          version_type_byte (d % 16),
          big_endian_24-add s2 s1 s0,
          big_endian_24-add f2 f1 f0,
        )
        | inr short ↦ ground arith
      ]
  serialize-parse _ p h e = ground arith

  -- Over bytes, the parser accepts exactly the datagrams of at least 27 bytes that begin with "VCS"
  -- and whose fourth byte has the version 1 in its high half.
  pub parse_accepts :
      (bs : List ℕ)
      → All IsByte bs
      → ((p : VcsPacket) × (parse_packet u bs ≡ ok p)) ↔ (
          (27 ≤ length bs)
          × (byte_at bs 0 ≡ b'V')
          × (byte_at bs 1 ≡ b'C')
          × (byte_at bs 2 ≡ b'S')
          × (byte_at bs 3 / 16 ≡ 1))
  unfolding parse_packet
  parse_accepts (a ∷ b ∷ c ∷ d ∷ f ∷ s2 ∷ s1 ∷ s0 ∷ f2 ∷ f1 ∷ f0 ∷ rest) h =
      elim (le-total 16 (length rest)) [
        | inl long ↦ (
          λ (p, e). ground (arith, version_of_byte d),
          λ e.
              elim (Parsed-cases
                (parse_packet u (a ∷ b ∷ c ∷ d ∷ f ∷ s2 ∷ s1 ∷ s0 ∷ f2 ∷ f1 ∷ f0 ∷ rest))) [
                  | inl found ↦ found
                  | inr (x, q) ↦ absurd (ground (arith, version_of_byte d, session_of rest long))
                ],
        )
        | inr short ↦ (λ (p, e). ground arith, λ e. absurd (ground arith))
      ]
  parse_accepts _ h = (λ (p, e). ground arith, λ e. absurd (ground arith))
