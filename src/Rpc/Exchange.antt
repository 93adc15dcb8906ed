-- ===== src/Rpc/Exchange.antt =====
-- crates/rpc/src/lib.rs: `send_request`, `receive_request`, `send_response` and `receive_response`.
-- The crate bincode is a parameter: a codec whose `deserialize` takes back what `serialize` made.
use torrent_rust_cli.Common.{
  ℕ, ◌^◌, ◌<◌, ◌≡◌, ◌≢◌, [], ◌++◌, append-nil, Bytes, length, Option, none, some, ◌==◌,
  if◌then◌else◌, ne→==, Outcome, ok, err, ◌>>=◌, map_err, arith,
}
use torrent_rust_cli.Common.Streams.{ByteStreams, IoError}
use torrent_rust_cli.Rpc.Packet.{write_packet, read_packet, read_packet-write_packet}

pub record Codec (A : Type 0) : Type 0 where
  pub serialize : A → Option Bytes
  pub deserialize : Bytes → Option A
  pub deserialize-serialize : (a : A) (bs : Bytes) → serialize a ≡ some bs → deserialize bs ≡ some a

pub data RpcError : Type 0 where
  serialize_failed deserialize_failed : RpcError
  read_failed : IoError → RpcError
  version_mismatch : ℕ → RpcError

abbrev pub protocol_version : ℕ
protocol_version = 1

module _ {A : Type 0} (c : Codec A) where
  -- The bytes that are written, under the given command.
  unfoldable pub send : ℕ → A → Outcome RpcError Bytes
  send command a = elim (c.serialize a) [
    | none ↦ err serialize_failed
    | some payload ↦ ok (write_packet protocol_version command payload)
  ]

  module _ (s : ByteStreams) where
    open s use {Stream, delivers}

    decode_payload : Bytes → Stream → Outcome RpcError (A × Stream)
    decode_payload payload st = elim (c.deserialize payload) [
      | none ↦ err deserialize_failed
      | some a ↦ ok (a, st)
    ]

    -- The command of the packet is not looked at.
    unfoldable pub receive : Stream → Outcome RpcError (A × Stream)
    unfolding decode_payload
    receive st = map_err read_failed (read_packet s st) >>= λ (version, command, payload, st').
        if version == protocol_version
        then decode_payload payload st'
        else err (version_mismatch version)

    -- Whatever is sent under a command that fits a u32, in a payload that fits one, is received, and
    -- the stream is left at what follows.
    pub receive-send :
        (command : ℕ) (a : A) (payload rest : Bytes)
        → command < 2 ^ 32
        → c.serialize a ≡ some payload
        → length payload < 2 ^ 32
        → (written : Bytes) × (send command a ≡ ok written)
          × (receive (delivers (written ++ rest)) ≡ ok (a, delivers rest))
    unfolding receive
    receive-send command a payload rest h e l = (
      write_packet protocol_version command payload,
      unfold send in rw (e, send),
      rw (
        read_packet-write_packet s protocol_version command payload rest h l,
        c.deserialize-serialize a payload e,
        decode_payload,
      ),
    )

    -- A whole packet of another version is refused with that version, whatever its payload.
    pub receive_other_version :
        (version command : ℕ) (payload rest : Bytes)
        → version ≢ protocol_version
        → command < 2 ^ 32
        → length payload < 2 ^ 32
        → receive (delivers (write_packet version command payload ++ rest))
          ≡ err (version_mismatch version)
    unfolding receive
    receive_other_version version command payload rest h k l =
        rw (read_packet-write_packet s version command payload rest k l, ne→== version 1 h)

module _ {A : Type 0} (c : Codec A) where
  unfoldable pub send_request : A → Outcome RpcError Bytes
  send_request a = send c 0 a

  unfoldable pub send_response : A → Outcome RpcError Bytes
  send_response a = send c 1 a

  module _ (s : ByteStreams) where
    open s use {Stream}

    unfoldable pub receive_request : Stream → Outcome RpcError (A × Stream)
    receive_request st = receive c s st

    unfoldable pub receive_response : Stream → Outcome RpcError (A × Stream)
    receive_response st = receive c s st

-- One exchange: the daemon receives the request that the client sent, and the client the response that
-- the daemon sent, where the codec prints both in fewer than 2 ^ 32 bytes.
pub exchange :
    {A B : Type 0} (c : Codec A) (d : Codec B) (s : ByteStreams) (req : A) (resp : B) (p q : Bytes)
    → c.serialize req ≡ some p
    → d.serialize resp ≡ some q
    → length p < 2 ^ 32
    → length q < 2 ^ 32
    → (sent answer : Bytes) × (send_request c req ≡ ok sent)
      × (receive_request c s (s.delivers sent) ≡ ok (req, s.delivers []))
      × (send_response d resp ≡ ok answer)
      × (receive_response d s (s.delivers answer) ≡ ok (resp, s.delivers []))
unfolding send_request send_response receive_request receive_response
exchange c d s req resp p q e f l k =
    let (sent, e₁, e₂) = receive-send c s 0 req p [] (omega arith) e l in
    let (answer, f₁, f₂) = receive-send d s 1 resp q [] (omega arith) f k in
    (sent, answer, e₁, rw append-nil at e₂, f₁, rw append-nil at f₂)
