-- ===== src/Metadata/Verified.antt =====
-- What `try_fetch_from_peer_static` of crates/daemon/src/magnet_worker.rs takes for the metadata.
use torrent_rust_cli.Common.{
  Yields, Yields-bind, Yields-ok, Yields-self, bind-ok, map_err-ok, ℕ, zero, suc, ◌+◌, ◌-◌, ◌*◌,
  ◌/◌, ◌≤◌, ◌≡◌, refl, sym, ap, ◌∙◌, List, [], ◌∷◌, ◌++◌, Option, none, some, Bytes, length, take,
  drop, replicate, min, ltb, bytes_eq, bytes_eq→eq, Outcome, ok, err, panic, out_of_fuel, map_err,
  arith, length-append, length-take, length-drop, length-replicate, Bool-cases, inl, inr,
}
use torrent_rust_cli.Common.Streams.{ByteStreams}
use torrent_rust_cli.Bencode.Value.{Bencode}
use torrent_rust_cli.Bencode.Decode.{decode}
use torrent_rust_cli.Meta.Types.{TorrentMeta}
use torrent_rust_cli.Meta.Parse.{from_bytes}
use torrent_rust_cli.Peer.Message.{PeerMessage, interested}
use torrent_rust_cli.Peer.Handshake as Handshake
use torrent_rust_cli.Metadata.Exchange.{
  FetchError, read_failed, ext_handshake, decode_failed, meta_failed, put_piece, wait_handshake,
  wait_piece, fetch_pieces, synthetic_bytes, synthesise, verified, fetch_offered, greet,
  try_fetch_from_peer,
}

length-put_piece : (i : ℕ) (d m : Bytes) → length (put_piece i d m) ≡ length m
unfolding put_piece
length-put_piece i d m =
    let start = i * 16384 in
    let end = min (start + length d) (length m) in
    let front = length-take start m in
    let middle = length-take (end - start) d in
    let back = length-drop end m in
    let whole = length-append (take start m) (take (end - start) d ++ drop end m) in
    let rest = length-append (take (end - start) d) (drop end m) in
    omega (arith, front, middle, back, whole, rest)

fetch_pieces-length :
    (s : ByteStreams) (id left i : ℕ) (m : Bytes) (sent : List PeerMessage) (st : s.Stream)
    → Yields
        (λ (r : Bytes × List PeerMessage × s.Stream). length r.0 ≡ length m)
        (fetch_pieces s id left i m sent st)
unfolding fetch_pieces
fetch_pieces-length s id zero i m sent st = refl
fetch_pieces-length s id (suc left) i m sent st =
    Yields-bind _ _ (wait_piece s 30 i st) _ (Yields-self (wait_piece s 30 i st)) (λ a e.
      same_length (fetch_pieces s id left (i + 1) (put_piece i a.0 m) _ a.1)
        (length-put_piece i a.0 m)
        (fetch_pieces-length s id left (i + 1) (put_piece i a.0 m) _ a.1))
  where
    same_length :
        {n k : ℕ} (r : Outcome FetchError (Bytes × List PeerMessage × s.Stream))
        → n ≡ k
        → Yields (λ (q : Bytes × List PeerMessage × s.Stream). length q.0 ≡ n) r
        → Yields (λ (q : Bytes × List PeerMessage × s.Stream). length q.0 ≡ k) r
    same_length (ok q) e h = h ∙ e
    same_length (err x) e h = tt
    same_length panic e h = tt
    same_length out_of_fuel e h = tt

module _ (sha1 : Bytes → Bytes) (info_hash : Bytes) where
  -- What is taken for the metadata has the digest that was asked for.
  pub record IsAuthentic (found : TorrentMeta × Bencode) : Type 0 where
    pub metadata_bytes : Bytes
    pub digest : sha1 metadata_bytes ≡ info_hash
    pub bounded : length metadata_bytes ≤ 10 * 1024 * 1024
    pub decoded : decode metadata_bytes ≡ ok found.1
    pub read : from_bytes sha1 (synthetic_bytes found.1) ≡ ok found.0

  synthesise-decode :
      (m : Bytes) (found : TorrentMeta × Bencode)
      → synthesise sha1 m ≡ ok found
      → (decode m ≡ ok found.1) × (from_bytes sha1 (synthetic_bytes found.1) ≡ ok found.0)
  unfolding synthesise
  synthesise-decode m found e =
      let (info_dict, e₁, rest) = bind-ok (map_err decode_failed (decode m)) _ found e in
      let (meta, e₂, last) =
        bind-ok (map_err meta_failed (from_bytes sha1 (synthetic_bytes info_dict))) _ found rest in
      let made : TorrentMeta × Bencode = (meta, info_dict) in
      let whole : made ≡ found = cc in
      let dict_of = ap (λ (q : TorrentMeta × Bencode). q.1) whole in
      let meta_of = ap (λ (q : TorrentMeta × Bencode). q.0) whole in
      (
        map_err-ok decode_failed (decode m) info_dict e₁ ∙ ap ok dict_of,
        ap (λ v. from_bytes sha1 (synthetic_bytes v)) (sym dict_of)
            ∙ map_err-ok meta_failed (from_bytes sha1 (synthetic_bytes info_dict)) meta e₂
            ∙ ap ok meta_of,
      )

  verified-IsAuthentic :
      (m : Bytes) → length m ≤ 10 * 1024 * 1024 → Yields IsAuthentic (verified sha1 info_hash m)
  unfolding verified
  verified-IsAuthentic m l = elim (Bool-cases (bytes_eq (sha1 m) info_hash)) [
    | inl e ↦ rw e (authentic (synthesise sha1 m) refl (bytes_eq→eq (sha1 m) info_hash e))
    | inr e ↦ rw e tt
  ]
    where
      authentic :
          (r : Outcome FetchError (TorrentMeta × Bencode))
          → synthesise sha1 m ≡ r
          → sha1 m ≡ info_hash
          → Yields IsAuthentic r
      authentic (ok found) e d = record {
        metadata_bytes = m;
        digest = d;
        bounded = l;
        decoded = (synthesise-decode m found e).0;
        read = (synthesise-decode m found e).1;
      }
      authentic (err x) e d = tt
      authentic panic e d = tt
      authentic out_of_fuel e d = tt

  fetch_offered-IsAuthentic :
      (s : ByteStreams) (sent : List PeerMessage) (f : Option ℕ × Option ℕ × s.Stream)
      → Yields
          (λ (r : (TorrentMeta × Bencode) × List PeerMessage). IsAuthentic r.0)
          (fetch_offered sha1 s info_hash sent f)
  unfolding fetch_offered
  fetch_offered-IsAuthentic s sent (none, size, st) = tt
  fetch_offered-IsAuthentic s sent (some id, none, st) = tt
  fetch_offered-IsAuthentic s sent (some id, some size, st) =
      elim (Bool-cases (ltb (10 * 1024 * 1024) size)) [
        | inl e ↦ rw e tt
        | inr e ↦
            let bound : size ≤ 10 * 1024 * 1024 = ground (arith, e) in
            rw e (
              Yields-bind _ _
                (fetch_pieces s id ((size + 16383) / 16384) 0 (replicate size 0) sent st) _
                (fetch_pieces-length s id ((size + 16383) / 16384) 0 (replicate size 0) sent st)
                (λ r l.
                  Yields-bind _ _ (verified sha1 info_hash r.0) _
                    (verified-IsAuthentic r.0
                      (omega (arith, l, length-replicate {A = ℕ} size 0, bound)))
                    (λ found h. h)))
      ]

  -- Whatever a peer sends: the metadata that are taken from it were read from bytes with the digest
  -- that was asked for, at most 10 MiB of them.
  pub try_fetch_from_peer-IsAuthentic :
      (s : ByteStreams) (st : s.Stream) (found : TorrentMeta × Bencode) (sent : List PeerMessage)
      → try_fetch_from_peer sha1 s info_hash st ≡ ok (found, sent)
      → IsAuthentic found
  unfolding try_fetch_from_peer
  try_fetch_from_peer-IsAuthentic s st found sent e =
      let (h, e₁, rest₁) = bind-ok (map_err read_failed (Handshake.read s st)) _ (found, sent) e in
      let (st₁, e₂, rest₂) = bind-ok (greet sha1 s info_hash h) _ (found, sent) rest₁ in
      let (f, e₃, rest₃) = bind-ok (wait_handshake s 20 st₁) _ (found, sent) rest₂ in
      Yields-ok _ _ (found, sent) (fetch_offered-IsAuthentic s (ext_handshake ∷ interested ∷ []) f)
        rest₃
