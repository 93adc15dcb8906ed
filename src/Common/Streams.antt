-- ===== src/Common/Streams.antt =====
-- What the program relies on of `tokio::io::AsyncReadExt::read_exact`: a stream that will deliver
-- some bytes and then end hands out exactly as many as are asked for, in order, or fails with an
-- unexpected end of file where too few are left.
use torrent_rust_cli.Common.Words.{from_be16, from_be32}
use torrent_rust_cli.Common.{
  Outcome, ok, err, [], ◌∷◌, ℕ, ◌<◌, ◌≡◌, Option, none, some, ◌++◌, Bytes, length, take, drop, ltb,
  if◌then◌else◌, arith, take-append, drop-append, length-append,
}

pub record ByteStreams : Type 1 where
  pub Stream : Type 0
  -- A stream on which these bytes arrive before the other side closes it.
  pub delivers : Bytes → Stream
  pub read_exact : ℕ → Stream → Option (Bytes × Stream)
  pub read_exact_enough :
      (n : ℕ) (front back : Bytes)
      → length front ≡ n
      → read_exact n (delivers (front ++ back)) ≡ some (front, delivers back)
  pub read_exact_short : (n : ℕ) (bs : Bytes) → length bs < n → read_exact n (delivers bs) ≡ none

-- What `read_exact` and the checks after it may answer.
pub data IoError : Type 0 where
  unexpected_eof invalid_data : IoError

-- The first four bytes as a word. The buffers that it is applied to have that many.
abbrev pub word32 : Bytes → ℕ
word32 (a ∷ b ∷ c ∷ d ∷ bs) = from_be32 a b c d
word32 _ = 0

abbrev pub word16 : Bytes → ℕ
word16 (a ∷ b ∷ bs) = from_be16 a b
word16 _ = 0

-- The first byte of a buffer.
abbrev pub first_byte : Bytes → ℕ
first_byte (b ∷ bs) = b
first_byte [] = 0

module _ (s : ByteStreams) where
  open s use {Stream, delivers, read_exact, read_exact_enough, read_exact_short}

  -- `reader.read_exact(&mut buf).await?` for a buffer of n bytes.
  unfoldable pub fill : ℕ → Stream → Outcome IoError (Bytes × Stream)
  fill n st = elim (read_exact n st) [ none ↦ err unexpected_eof | some p ↦ ok p ]

  pub fill_enough :
      (n : ℕ) (front back : Bytes)
      → length front ≡ n
      → fill n (delivers (front ++ back)) ≡ ok (front, delivers back)
  unfolding fill
  fill_enough n front back e = rw (read_exact_enough n front back e, fill)

  pub fill_short : (n : ℕ) (bs : Bytes) → length bs < n → fill n (delivers bs) ≡ err unexpected_eof
  unfolding fill
  fill_short n bs h = rw (read_exact_short n bs h, fill)

unfoldable pub read_list : ℕ → Bytes → Option (Bytes × Bytes)
read_list n bs = if ltb (length bs) n then none else some (take n bs, drop n bs)

pub read_list_enough :
    (n : ℕ) (front back : Bytes)
    → length front ≡ n
    → read_list n (front ++ back) ≡ some (front, back)
unfolding read_list
read_list_enough n front back e =
    rw (← e)
      (ground (arith, length-append front back, take-append front back, drop-append front back))

pub read_list_short : (n : ℕ) (bs : Bytes) → length bs < n → read_list n bs ≡ none
unfolding read_list
read_list_short n bs h = ground arith

-- The streams that are lists of the bytes still to come: the assumptions can be met.
abbrev pub list_streams : ByteStreams
list_streams = record {
  Stream = Bytes;
  delivers = λ bs. bs;
  read_exact = read_list;
  read_exact_enough = read_list_enough;
  read_exact_short = read_list_short;
}
