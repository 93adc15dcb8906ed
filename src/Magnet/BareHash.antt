-- ===== src/Magnet/BareHash.antt =====
-- `MagnetLink::parse` of crates/core/src/magnet.rs on the links that `add_torrent_internal` of
-- crates/daemon/src/server.rs makes from a bare info hash and the default trackers.
use torrent_rust_cli.Common.{
  ℕ, ◌≡◌, ◌≢◌, refl, ap, ◌∙◌, [], ◌∷◌, ◌++◌, append_assoc, append-nil, List, map, none, some, Bytes,
  length, ok, arith, eq→==, All, All-append, All-weaken, true,
}
use torrent_rust_cli.Magnet.Hex.{decode_hex, decode_hex_text, IsHexOf, decode_hex-IsHexOf}
use torrent_rust_cli.Common.Utf8.{is_utf8}
use torrent_rust_cli.Magnet.UrlDecode.{
  url_decode, IsByteSerialize, IsSpaceless, unescape-byte_serialize, byte_serialize_clean,
}
use torrent_rust_cli.Magnet.Link.{
  Found, magnet_prefix, xt_prefix, btih_prefix, tr_prefix, strip_prefix, split_on, take_pair,
  take_pairs, take_hash, take_tracker, nothing_found, link_of, parse,
}

-- A text that stands in the link so that the parser finds it.
record IsEncoded (encode : Bytes → Bytes) (t : Bytes) : Type 0 where
  no_separator : All (λ c. c ≢ b'&') (encode t)
  decodes : url_decode (encode t) ≡ ok t

-- The text of a tracker: UTF-8 without spaces.
abbrev pub IsTracker : Bytes → Type 0
IsTracker t = (is_utf8 t ≡ true) × IsSpaceless t

tracker-IsEncoded :
    (encode : Bytes → Bytes) (t : Bytes) → IsByteSerialize encode → IsTracker t → IsEncoded encode t
unfolding url_decode
tracker-IsEncoded encode t h (u, k) = record {
  no_separator = byte_serialize_clean encode t h k;
  decodes = rw (unescape-byte_serialize encode t h k, url_decode, u) refl;
}

-- The `&tr=…` parts.
unfoldable pub trackers_query : (Bytes → Bytes) → List Bytes → Bytes
trackers_query encode [] = []
trackers_query encode (t ∷ ts) = b'&' ∷ (tr_prefix ++ (encode t ++ trackers_query encode ts))

-- `format!("magnet:?xt=urn:btih:{}{}", hash, trackers_str)`
unfoldable pub bare_hash_link : (Bytes → Bytes) → Bytes → List Bytes → Bytes
bare_hash_link encode hash trackers =
    magnet_prefix ++ (xt_prefix ++ (btih_prefix ++ (hash ++ trackers_query encode trackers)))

strip_prefix-append : (p s : Bytes) → strip_prefix p (p ++ s) ≡ some s
unfolding strip_prefix
strip_prefix-append [] s = refl
strip_prefix-append (c ∷ p) s = ground (arith, strip_prefix-append p s)

split_on-append :
    (sep : ℕ) (front back : Bytes)
    → All (λ c. c ≢ sep) front
    → split_on sep (front ++ (sep ∷ back)) ≡ front ∷ split_on sep back
unfolding split_on
split_on-append sep [] back h = ground arith
split_on-append sep (c ∷ front) back h = ground (arith, split_on-append sep front back h.1)

split_on-All : (sep : ℕ) (s : Bytes) → All (λ c. c ≢ sep) s → split_on sep s ≡ s ∷ []
unfolding split_on
split_on-All sep [] h = refl
split_on-All sep (c ∷ s) h = ground (arith, split_on-All sep s h.1)

take_pair_tracker :
    (encode : Bytes → Bytes) (t : Bytes) (found : Found)
    → IsEncoded encode t
    → take_pair (tr_prefix ++ encode t) found ≡ record found { urls = found.urls ++ (t ∷ []) }
unfolding take_pair take_tracker strip_prefix
take_pair_tracker encode t found h = rw (h.decodes, take_tracker)

abbrev AllEncoded : (Bytes → Bytes) → List Bytes → Type 0
AllEncoded encode ts = All (IsEncoded encode) ts

abbrev tracker_part : (Bytes → Bytes) → Bytes → Bytes
tracker_part encode t = tr_prefix ++ encode t

split_query :
    (encode : Bytes → Bytes) (front : Bytes) (ts : List Bytes)
    → All (λ c. c ≢ b'&') front
    → AllEncoded encode ts
    → split_on b'&' (front ++ trackers_query encode ts) ≡ front ∷ map (tracker_part encode) ts
unfolding trackers_query
split_query encode front [] h k = rw (append-nil front) (split_on-All b'&' front h)
split_query encode front (t ∷ ts) h k =
    split_on-append b'&' front (tracker_part encode t ++ trackers_query encode ts) h
    ∙ ap (λ r. front ∷ r)
        (split_query encode (tracker_part encode t) ts
          (omega arith, (omega arith, (omega arith, k.0.no_separator))) k.1)

take_pairs_trackers :
    (encode : Bytes → Bytes) (ts : List Bytes) (found : Found)
    → AllEncoded encode ts
    → take_pairs (map (tracker_part encode) ts) found ≡ record found { urls = found.urls ++ ts }
unfolding take_pairs
take_pairs_trackers encode [] found k = rw append-nil
take_pairs_trackers encode (t ∷ ts) found k =
    ap (λ f. take_pairs (map (tracker_part encode) ts) f) (take_pair_tracker encode t found k.0)
    ∙ take_pairs_trackers encode ts (record found { urls = found.urls ++ (t ∷ []) }) k.1
    ∙ ap (λ (u : List Bytes). record found { urls = u }) (append_assoc found.urls (t ∷ []) ts)

parse_query :
    (q : Bytes) → parse (magnet_prefix ++ q) ≡ link_of (take_pairs (split_on b'&' q) nothing_found)
unfolding parse
parse_query q = rw (strip_prefix-append magnet_prefix q, parse)

take_pair_hash :
    (hash bytes : Bytes)
    → decode_hex 20 hash ≡ some bytes
    → take_pair (xt_prefix ++ (btih_prefix ++ hash)) nothing_found
      ≡ record nothing_found { hash = some bytes }
unfolding take_pair take_hash strip_prefix
take_pair_hash hash bytes e =
    rw (eq→== (length hash) 40 (decode_hex_text 20 hash bytes e).0, e, take_hash)

-- A link made from a bare info hash of 40 hexadecimal digits, each in either case, is parsed into the
-- 20 bytes that the digits stand for, the given trackers in their order, and no name: for trackers that
-- are UTF-8 without spaces, encoded as the crate url documents.
pub parse-bare_hash_link :
    (encode : Bytes → Bytes) (hash bytes : Bytes) (trackers : List Bytes)
    → IsByteSerialize encode
    → IsHexOf bytes hash
    → length bytes ≡ 20
    → All IsTracker trackers
    → parse (bare_hash_link encode hash trackers)
      ≡ ok (record { info_hash = bytes; trackers = trackers; name = none })
unfolding bare_hash_link take_pairs link_of
parse-bare_hash_link encode hash bytes trackers serializes digits size texts =
    let first = xt_prefix ++ (btih_prefix ++ hash) in
    let e : decode_hex 20 hash ≡ some bytes = rw size at (decode_hex-IsHexOf bytes hash digits) in
    let k =
      All-weaken IsTracker (IsEncoded encode) trackers
        (λ t u. tracker-IsEncoded encode t serializes u) texts in
    let clean : All (λ c. c ≢ b'&') hash = (decode_hex_text 20 hash bytes e).1 in
    let found : Found = record nothing_found { hash = some bytes } in
    let parts = map (tracker_part encode) trackers in
    parse_query (first ++ trackers_query encode trackers)
    ∙ ap (λ ps. link_of (take_pairs ps nothing_found))
        (split_query encode first trackers
          (All-append (λ c. c ≢ b'&') (xt_prefix ++ btih_prefix) hash (omega arith) clean) k)
    ∙ ap (λ f. link_of (take_pairs parts f)) (take_pair_hash hash bytes e)
    ∙ ap link_of (take_pairs_trackers encode trackers found k)
