-- ===== src/Tracker/Peers.antt =====
-- The compact lists of peers in the answers of trackers (crates/tracker/src/lib.rs).
use torrent_rust_cli.Common.{
  ℕ, ◌*◌, ◌^◌, ◌<◌, ◌≡◌, refl, [], ◌∷◌, ◌++◌, List, Bytes, length, All, arith,
}
use torrent_rust_cli.Common.Words.{be16, from_be16, from_be16-be16}

-- `SocketAddr` with an `Ipv4Addr`: the four bytes of the address, and the port.
pub data SocketAddr : Type 0 where
  v4 : ℕ → ℕ → ℕ → ℕ → ℕ → SocketAddr

-- The loop over `chunks_exact(6)`: what is left at the end is dropped.
unfoldable pub read_peers : Bytes → List SocketAddr
read_peers (a ∷ b ∷ c ∷ d ∷ e ∷ f ∷ rest) = v4 a b c d (from_be16 e f) ∷ read_peers rest
read_peers _ = []

-- The compact list that a tracker sends.
abbrev pub print_peers : List SocketAddr → Bytes
print_peers [] = []
print_peers (v4 a b c d port ∷ ps) = a ∷ b ∷ c ∷ d ∷ (be16 port ++ print_peers ps)

abbrev pub HasPort : SocketAddr → Type 0
HasPort (v4 a b c d port) = port < 2 ^ 16

pub read_peers-print_peers :
    (ps : List SocketAddr) → All HasPort ps → read_peers (print_peers ps) ≡ ps
unfolding read_peers
read_peers-print_peers [] h = refl
read_peers-print_peers (v4 a b c d port ∷ ps) h =
    rw (from_be16-be16 port h.0, read_peers-print_peers ps h.1)

pub length-print_peers : (ps : List SocketAddr) → length (print_peers ps) ≡ 6 * length ps
length-print_peers [] = refl
length-print_peers (v4 a b c d port ∷ ps) = omega (arith, length-print_peers ps)
