-- ===== src/Rpc/Packet.antt =====
-- crates/rpc/src/transport.rs: `write_packet`, as the bytes that it writes, and `read_packet`.
use torrent_rust_cli.Common.{
  ℕ, ◌%◌, ◌^◌, ◌<◌, ◌≡◌, refl, ◌∙◌, ◌∷◌, ◌++◌, Bytes, length, drop, Outcome, ok, err, ◌>>=◌,
}
use native.Mathlib.Nat.{mod-eq_of_lt}
use torrent_rust_cli.Common.Words.{be32, from_be32-be32}
use torrent_rust_cli.Common.Streams.{
  ByteStreams, fill, fill_enough, fill_short, word32, first_byte, IoError, unexpected_eof,
}

unfoldable pub packet_header : ℕ → ℕ → ℕ → Bytes
packet_header version command len = version ∷ (be32 command ++ be32 (len % 2 ^ 32))

unfoldable pub write_packet : ℕ → ℕ → Bytes → Bytes
unfolding packet_header
write_packet version command payload = packet_header version command (length payload) ++ payload

module _ (s : ByteStreams) where
  open s use {Stream, delivers}

  -- The version, the command, the payload, and the stream behind the packet.
  unfoldable pub read_packet : Stream → Outcome IoError (ℕ × ℕ × Bytes × Stream)
  read_packet st = fill s 9 st >>= λ (header, st₁).
      fill s (word32 (drop 5 header)) st₁ >>= λ (payload, st₂).
      ok (first_byte header, word32 (drop 1 header), payload, st₂)

  read_header :
      (version command len : ℕ) (after : Bytes)
      → command < 2 ^ 32
      → len < 2 ^ 32
      → read_packet (delivers (packet_header version command len ++ after))
        ≡ (fill s len (delivers after) >>= λ (payload, st₂). ok (version, command, payload, st₂))
  unfolding read_packet packet_header
  read_header version command len after h l = rw (
    fill_enough s 9 (packet_header version command len) after refl,
    mod-eq_of_lt l,
    from_be32-be32 command h,
    from_be32-be32 len l,
  )

  -- `read_packet` takes back what `write_packet` wrote, where the command and the length of the
  -- payload fit a u32, and leaves the stream at what follows.
  pub read_packet-write_packet :
      (version command : ℕ) (payload rest : Bytes)
      → command < 2 ^ 32
      → length payload < 2 ^ 32
      → read_packet (delivers (write_packet version command payload ++ rest))
        ≡ ok (version, command, payload, delivers rest)
  unfolding write_packet
  read_packet-write_packet version command payload rest h l =
      read_header version command (length payload) (payload ++ rest) h l
      ∙ rw (fill_enough s (length payload) payload rest refl)

  -- A packet that is cut short in its payload is an unexpected end of file.
  pub read_packet_truncated :
      (version command len : ℕ) (front : Bytes)
      → command < 2 ^ 32
      → len < 2 ^ 32
      → length front < len
      → read_packet (delivers (packet_header version command len ++ front)) ≡ err unexpected_eof
  read_packet_truncated version command len front h l q =
      read_header version command len front h l ∙ rw (fill_short s len front q)
