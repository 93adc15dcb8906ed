-- ===== src/Magnet/Checks.antt =====
-- Concrete runs of crates/core/src/lib.rs and magnet.rs, and the theorems at concrete inputs.
use torrent_rust_cli.Common.{
  ℕ, zero, suc, inl, inr, ◌/◌, ◌%◌, ◌==◌, if◌then◌else◌, get_or, ne→==, ◌≡◌, refl, [], ◌∷◌, none,
  Bytes, ok, arith, replicate,
}
use torrent_rust_cli.Common.Utf8.{is_utf8}
use torrent_rust_cli.Magnet.Hex.{upper_chars, IsHexOf}
use torrent_rust_cli.Magnet.UrlDecode.{IsByteSerialize, is_unreserved}
use torrent_rust_cli.Common.Texts.{codes}
use torrent_rust_cli.Magnet.Link.{parse}
use torrent_rust_cli.Magnet.BareHash.{IsTracker, bare_hash_link, parse-bare_hash_link}

-- `byte_serialize`, as its documentation says.
encoded : Bytes → Bytes
encoded [] = []
encoded (c ∷ t) =
    let rest = encoded t in
    if is_unreserved c
    then c ∷ rest
    else if c == 32
    then b'+' ∷ rest
    else b'%' ∷ get_or upper_chars (c / 16) 0 ∷ get_or upper_chars (c % 16) 0 ∷ rest

encoded-IsByteSerialize : IsByteSerialize encoded
unfolding encoded is_unreserved
encoded-IsByteSerialize = record {
  empty = refl;
  keeps = λ c t e. rw e refl;
  space = λ t. refl;
  escapes = λ c t e l n. rw (e, ne→== c 32 n) refl;
}

abbrev tracker : Bytes
tracker = codes "udp://t:80/"

tracker-IsTracker : IsTracker tracker
unfolding is_utf8
tracker-IsTracker = (refl, omega arith)

-- Both cases of a digit.
abbrev zero_text : ℕ → Bytes
zero_text zero = []
zero_text (suc n) = b'0' ∷ b'0' ∷ zero_text n

abbrev digits : Bytes
digits = b'a' ∷ b'B' ∷ zero_text 19

abbrev hash_bytes : Bytes
hash_bytes = 0xab ∷ replicate 19 0

zero_text-IsHexOf : (n : ℕ) → IsHexOf (replicate n 0) (zero_text n)
unfolding IsHexOf
zero_text-IsHexOf zero = tt
zero_text-IsHexOf (suc n) = (omega arith, inl refl, inl refl, zero_text-IsHexOf n)

digits-IsHexOf : IsHexOf hash_bytes digits
unfolding IsHexOf
digits-IsHexOf = (omega arith, inl refl, inr refl, zero_text-IsHexOf 19)

parse-bare_hash_link_example :
    parse (bare_hash_link encoded digits (tracker ∷ []))
    ≡ ok (record { info_hash = hash_bytes; trackers = tracker ∷ []; name = none })
parse-bare_hash_link_example =
    parse-bare_hash_link encoded digits hash_bytes (tracker ∷ []) encoded-IsByteSerialize
      digits-IsHexOf refl (tracker-IsTracker, tt)
