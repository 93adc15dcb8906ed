-- ===== src/Peer/Frames.antt =====
-- What `PeerMessage::read` of crates/peer/src/protocol.rs does with frames that `serialize` never writes.
use torrent_rust_cli.Common.{
  ℕ, ◌-◌, ◌<◌, ◌≤◌, ◌≡◌, ◌≢◌, ◌↔◌, ◌⊎◌, inl, inr, refl, ◌∷◌, ◌++◌, Bytes, Outcome, ok, panic,
  length, ◌>>=◌, arith, ltb, lt→ltb, Bool-cases, take, drop, take-append-drop, length-take,
  Option-cases, ltb→lt, ◌==◌, ==→eq, Bool, true, false, [], ap, if◌then◌else◌, ◌∙◌, sym,
}
use torrent_rust_cli.Common.Words.{be32, be16}
use torrent_rust_cli.Common.Streams.{ByteStreams, fill, fill_enough, fill_short, IoError}
use torrent_rust_cli.Peer.Read.{read, read_body, read_block, read_extended}
use torrent_rust_cli.Peer.RoundTrip.{IsU32, IsValid, read_frame, read-serialize}
use torrent_rust_cli.Peer.Message.{
  PeerMessage, serialize, keep_alive, choke, unchoke, interested, not_interested, have, bitfield,
  request, piece, cancel, extended, port, unknown,
}

-- The ids of messages with a fixed size.
abbrev HasFixedSize : ℕ → Type 0
HasFixedSize id = (id ≤ 4) ⊎ (id ≡ 6) ⊎ (id ≡ 8) ⊎ (id ≡ 9)

-- The messages whose fields have a fixed size.
unfoldable pub HasFixedLength : PeerMessage → Type 0
HasFixedLength keep_alive = ⊥
HasFixedLength (bitfield bits) = ⊥
HasFixedLength (piece index begin block) = ⊥
HasFixedLength (extended msg_id payload) = ⊥
HasFixedLength (unknown id body) = ⊥
HasFixedLength _ = Unit {0}

if-ne-panic {ℓ} :
    {A : Type ℓ} (b : Bool) {x y : Outcome IoError A}
    → (b ≡ true → x ≢ panic)
    → y ≢ panic
    → (if b then x else y) ≢ panic
if-ne-panic true hx hy = hx refl
if-ne-panic false hx hy = hy

module _ (s : ByteStreams) where
  open s use {Stream, delivers}

  read_ignores_length :
      (id len len' : ℕ) (after : Bytes)
      → HasFixedSize id
      → 0 < len
      → 0 < len'
      → IsU32 len
      → IsU32 len'
      → read s (delivers (be32 len ++ (id ∷ after))) ≡ read s (delivers (be32 len' ++ (id ∷ after)))
  unfolding read_body
  read_ignores_length id len len' after k p p' h h' =
      read_frame s len id after p h ∙ same k ∙ sym (read_frame s len' id after p' h')
    where
      same :
          HasFixedSize id
          → read_body s id len (delivers after) ≡ read_body s id len' (delivers after)
      same (inl q) = ground arith
      same (inr (inl q)) = ground arith
      same (inr (inr (inl q))) = ground arith
      same (inr (inr (inr q))) = ground arith

  read_relabelled :
      (m : PeerMessage) (id len size : ℕ) (body rest : Bytes)
      → IsValid m
      → HasFixedSize id
      → 0 < len
      → IsU32 len
      → 0 < size
      → IsU32 size
      → be32 size ++ (id ∷ body) ≡ serialize m
      → read s (delivers (be32 len ++ (id ∷ (body ++ rest)))) ≡ ok (m, delivers rest)
  read_relabelled m id len size body rest valid k p h p' h' e =
      read_ignores_length id len size (body ++ rest) k p p' h h'
      ∙ ap (λ t. read s (delivers (t ++ rest))) e
      ∙ read-serialize s m rest valid

  -- A message of fixed size is read alike whatever length above 0 its frame announces: exactly its own
  -- fields are taken, so that the bytes a longer frame announces stay in the stream, to be read as the
  -- next message.
  pub read_any_length :
      (m : PeerMessage) (len : ℕ) (rest : Bytes)
      → IsValid m
      → HasFixedLength m
      → 0 < len
      → IsU32 len
      → read s (delivers (be32 len ++ (drop 4 (serialize m) ++ rest))) ≡ ok (m, delivers rest)
  unfolding serialize HasFixedLength
  read_any_length choke len rest v k p h =
      read_relabelled choke 0 len 1 [] rest v (inl (omega arith)) p h (omega arith) (omega arith)
        refl
  read_any_length unchoke len rest v k p h =
      read_relabelled unchoke 1 len 1 [] rest v (inl (omega arith)) p h (omega arith) (omega arith)
        refl
  read_any_length interested len rest v k p h =
      read_relabelled interested 2 len 1 [] rest v (inl (omega arith)) p h (omega arith)
        (omega arith) refl
  read_any_length not_interested len rest v k p h =
      read_relabelled not_interested 3 len 1 [] rest v (inl (omega arith)) p h (omega arith)
        (omega arith) refl
  read_any_length (have index) len rest v k p h =
      read_relabelled (have index) 4 len 5 (be32 index) rest v (inl (omega arith)) p h (omega arith)
        (omega arith) refl
  read_any_length (request index begin n) len rest v k p h =
      read_relabelled (request index begin n) 6 len 13 (be32 index ++ (be32 begin ++ be32 n)) rest v
        (inr (inl refl)) p h (omega arith) (omega arith) refl
  read_any_length (cancel index begin n) len rest v k p h =
      read_relabelled (cancel index begin n) 8 len 13 (be32 index ++ (be32 begin ++ be32 n)) rest v
        (inr (inr (inl refl))) p h (omega arith) (omega arith) refl
  read_any_length (port n) len rest v k p h =
      read_relabelled (port n) 9 len 3 (be16 n) rest v (inr (inr (inr refl))) p h (omega arith)
        (omega arith) refl
  read_any_length keep_alive len rest v k p h = absurd k
  read_any_length (bitfield b) len rest v k p h = absurd k
  read_any_length (piece i b d) len rest v k p h = absurd k
  read_any_length (extended i d) len rest v k p h = absurd k
  read_any_length (unknown i d) len rest v k p h = absurd k

  -- Enough bytes, or an unexpected end.
  fill_long :
      (n : ℕ) (bs : Bytes)
      → n ≤ length bs
      → fill s n (delivers bs) ≡ ok (take n bs, delivers (drop n bs))
  fill_long n bs h =
      let e : length (take n bs) ≡ n = omega (arith, length-take n bs) in
      rw (take-append-drop n bs) at (fill_enough s n (take n bs) (drop n bs) e)

  fill_then {ℓ} :
      {B : Type ℓ} (n : ℕ) (st : Stream) (f : Bytes × Stream → Outcome IoError B)
      → ((p : Bytes × Stream) → f p ≢ panic)
      → (fill s n st >>= f) ≢ panic
  unfolding fill
  fill_then n st f h = elim (Option-cases (s.read_exact n st)) [
    | inl e ↦ rw (e, fill) (λ p. cc)
    | inr (a, e) ↦ rw (e, fill) (h a)
  ]

  read_block_panics :
      (len : ℕ) (header : Bytes) (st : Stream) → read_block s len header st ≡ panic → len < 9
  unfolding read_block
  read_block_panics len header st e = elim (Bool-cases (ltb len 9)) [
    | inl q ↦ ltb→lt len 9 q
    | inr q ↦ absurd (fill_then (len - 9) st _ (λ p r. cc) (rw q at e))
  ]

  read_extended-ne-panic : (len : ℕ) (st : Stream) → read_extended s len st ≢ panic
  unfolding read_extended
  read_extended-ne-panic len st e = elim (Bool-cases (ltb len 2)) [
    | inl q ↦ cc (rw q at e)
    | inr q ↦ fill_then 1 st _ (λ (id, st₁). fill_then (len - 2) st₁ _ (λ p r. cc)) (rw q at e)
  ]

  -- The header of a piece.
  read_piece_panics :
      (len : ℕ) (after : Bytes)
      → read_body s 7 len (delivers after) ≡ panic
      → (len < 9) × (8 ≤ length after)
  unfolding read_body
  read_piece_panics len after e = elim (Bool-cases (ltb (length after) 8)) [
    | inl q ↦ cc (rw (fill_short s 8 after (ltb→lt _ _ q)) at e)
    | inr q ↦
        let enough : 8 ≤ length after = ground arith in
        (read_block_panics len _ _ (rw (fill_long 8 after enough) at e), enough)
  ]

  -- No other message panics.
  read_body-ne-panic : (id len : ℕ) (st : Stream) → id ≢ 7 → read_body s id len st ≢ panic
  unfolding read_body
  read_body-ne-panic id len st h =
      if-ne-panic (id == 0) (λ b e. cc)
        (if-ne-panic (id == 1) (λ b e. cc)
          (if-ne-panic (id == 2) (λ b e. cc)
            (if-ne-panic (id == 3) (λ b e. cc)
              (if-ne-panic (id == 4) (λ b. fill_then 4 st _ (λ p e. cc))
                (if-ne-panic (id == 5) (λ b. fill_then (len - 1) st _ (λ p e. cc))
                  (if-ne-panic (id == 6) (λ b. fill_then 12 st _ (λ p e. cc))
                    (if-ne-panic (id == 7) (λ b. absurd (h (==→eq id 7 b)))
                      (if-ne-panic (id == 8) (λ b. fill_then 12 st _ (λ p e. cc))
                        (if-ne-panic (id == 9) (λ b. fill_then 2 st _ (λ p e. cc))
                          (if-ne-panic (id == 20) (λ b. read_extended-ne-panic len st)
                            (fill_then (len - 1) st _ (λ p e. cc))))))))))))

  -- A frame with a length above 0 that fits a u32, and the byte of its id, makes `read` panic
  -- exactly when it is a piece whose length is below 9 and the eight bytes of its header arrive.
  pub read-panic_iff :
      (id len : ℕ) (after : Bytes)
      → 0 < len
      → IsU32 len
      → (read s (delivers (be32 len ++ (id ∷ after))) ≡ panic)
        ↔ ((id ≡ 7) × (len < 9) × (8 ≤ length after))
  unfolding read_body
  read-panic_iff id len after p h = (
    forward,
    λ (i, l, a). read_frame s len id after p h ∙ rw i (rw (fill_long 8 after a, lt→ltb len 9 l)),
  )
    where
      is_piece : read_body s id len (delivers after) ≡ panic → id ≡ 7
      is_piece e = elim (Bool-cases (id == 7)) [
        | inl q ↦ ==→eq id 7 q
        | inr q ↦ absurd (read_body-ne-panic id len (delivers after) (ground arith) e)
      ]

      forward :
          read s (delivers (be32 len ++ (id ∷ after))) ≡ panic
          → (id ≡ 7) × (len < 9) × (8 ≤ length after)
      forward e =
          let e₁ = rw (read_frame s len id after p h) at e in
          let i = is_piece e₁ in let (l, a) = read_piece_panics len after (rw i at e₁) in (i, l, a)
