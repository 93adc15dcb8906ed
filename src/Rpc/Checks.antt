-- ===== src/Rpc/Checks.antt =====
-- Concrete runs of crates/rpc/src/transport.rs and lib.rs, and the theorems at concrete inputs.
use torrent_rust_cli.Common.{◌≡◌, refl, sym, [], ◌∷◌, Bytes, some, ok, arith}
use torrent_rust_cli.Common.Streams.{list_streams, fill, read_list}
use torrent_rust_cli.Rpc.Packet.{read_packet}
use torrent_rust_cli.Rpc.Exchange.{
  Codec, send_request, receive_request, send_response, receive_response, exchange,
}

-- Texts as their own bytes.
abbrev text_codec : Codec Bytes
text_codec = record {
  serialize = λ bs. some bs;
  deserialize = λ bs. some bs;
  deserialize-serialize = λ a bs e. sym e;
}

test_packet :
    read_packet list_streams (1 ∷ 0 ∷ 0 ∷ 0 ∷ 2 ∷ 0 ∷ 0 ∷ 0 ∷ 1 ∷ 7 ∷ 8 ∷ [])
    ≡ ok (1, 2, 7 ∷ [], 8 ∷ [])
unfolding read_packet fill read_list
test_packet = refl

exchange_example :
    (sent answer : Bytes) × (send_request text_codec (7 ∷ []) ≡ ok sent)
    × (receive_request text_codec list_streams sent ≡ ok (7 ∷ [], []))
    × (send_response text_codec (8 ∷ []) ≡ ok answer)
    × (receive_response text_codec list_streams answer ≡ ok (8 ∷ [], []))
exchange_example =
    exchange text_codec text_codec list_streams (7 ∷ []) (8 ∷ []) (7 ∷ []) (8 ∷ []) refl refl
      (omega arith) (omega arith)
