-- ===== src/Server/Connection.antt =====
-- `handle_connection` of crates/daemon/src/server.rs, over the exchange of requests and responses.
use torrent_rust_cli.Common.{
  ℕ, zero, suc, ◌+◌, ◌^◌, ◌<◌, ◌≡◌, refl, List, [], ◌∷◌, ◌++◌, Option, none, some, Bytes, length,
  All, Outcome, ok, err, panic, out_of_fuel, ◌>>=◌, arith,
}
use torrent_rust_cli.Common.Streams.{ByteStreams, unexpected_eof, fill_short}
use torrent_rust_cli.Rpc.Packet.{read_packet}
use torrent_rust_cli.Rpc.Types.{Request, Response}
use torrent_rust_cli.Rpc.Exchange.{
  Codec, RpcError, read_failed, send, receive, receive-send, send_request, send_response,
  receive_request,
}
use torrent_rust_cli.Server.Types.{RpcServer, Env}
use torrent_rust_cli.Server.Requests.{process_request}

-- How the connection ended: what was written to the client, the server then, and the error.
pub record Ended : Type 0 where
  pub written : Bytes
  pub server : RpcServer
  pub error : Option RpcError

module _ {F : Type 0} (env : Env F) (c : Codec Request) (d : Codec (Response F))
    (s : ByteStreams) where
  open s use {Stream, delivers}

  -- Every failed read carries `Failed to read request packet` and counts as the end of the client.
  unfoldable pub closed : RpcError → Option RpcError
  closed (read_failed e) = none
  closed e = some e

  -- One round of the loop: the answer that is written, the server and what is left of the stream, or
  -- the end of the loop.
  pub data Round : Type 0 where
    answered : Bytes → RpcServer → Stream → Round
    stopped : RpcServer → Option RpcError → Round

  reply : Stream → RpcServer → Outcome RpcError Bytes → Outcome RpcError Round
  reply st server (ok bytes) = ok (answered bytes server st)
  reply st server (err e) = ok (stopped server (some e))
  reply st server panic = panic
  reply st server out_of_fuel = out_of_fuel

  answer : Stream → Outcome RpcError (Response F × RpcServer) → Outcome RpcError Round
  unfolding reply
  answer st (ok (response, server)) = reply st server (send_response d response)
  answer st (err e) = err e
  answer st panic = panic
  answer st out_of_fuel = out_of_fuel

  serve : (ℕ → ℕ) → RpcServer → Outcome RpcError (Request × Stream) → Outcome RpcError Round
  unfolding answer closed
  serve clock server (ok (request, st)) = answer st (process_request env clock request server)
  serve clock server (err e) = ok (stopped server (closed e))
  serve clock server panic = panic
  serve clock server out_of_fuel = out_of_fuel

  unfoldable pub round : (ℕ → ℕ) → Stream → RpcServer → Outcome RpcError Round
  unfolding serve
  round clock st server = serve clock server (receive_request c s st)

  loop : (Stream → RpcServer → Outcome RpcError Ended) → Round → Outcome RpcError Ended
  loop more (answered bytes server st) =
      more st server >>= λ (e : Ended). ok (record e { written = bytes ++ e.written })
  loop more (stopped server e) = ok (record { written = []; server = server; error = e })

  -- The loop, for as many rounds as the fuel allows; `clock` gives the times that the request of each
  -- number sees.
  unfoldable pub handle_connection :
      ℕ → (ℕ → ℕ → ℕ) → ℕ → Stream → RpcServer → Outcome RpcError Ended
  unfolding round loop
  handle_connection zero clock n st server = out_of_fuel
  handle_connection (suc f) clock n st server = round (clock n) st server >>= λ r.
      loop (λ st' server'. handle_connection f clock (n + 1) st' server') r

-- The requests one after the other, their responses, and the server at the end.
pub data Processes {F : Type 0} (env : Env F) (clock : ℕ → ℕ → ℕ)
    : ℕ → RpcServer → List Request → List (Response F) → RpcServer → Type 0 where
  finished : {n : ℕ} {s : RpcServer} → Processes env clock n s [] [] s
  processed :
      {n : ℕ} {s s' last : RpcServer} {r : Request} {rs : List Request} {response : Response F}
      {responses : List (Response F)}
      → process_request env (clock n) r s ≡ ok (response, s')
      → Processes env clock (n + 1) s' rs responses last
      → Processes env clock n s (r ∷ rs) (response ∷ responses) last

-- What a value is written as fits a packet.
abbrev pub IsSendable : {A : Type 0} → Codec A → A → Type 0
IsSendable c a = (p : Bytes) × (c.serialize a ≡ some p) × (length p < 2 ^ 32)

-- The packets one after the other.
abbrev pub send_all : {A : Type 0} → (A → Outcome RpcError Bytes) → List A → Outcome RpcError Bytes
send_all send [] = ok []
send_all send (a ∷ rest) = send a >>= λ front. send_all send rest >>= λ back. ok (front ++ back)

module _ {F : Type 0} (env : Env F) (c : Codec Request) (d : Codec (Response F))
    (s : ByteStreams) where
  receive_closed : receive_request c s (s.delivers []) ≡ err (read_failed unexpected_eof)
  unfolding receive_request receive read_packet
  receive_closed = rw (fill_short s 9 [] (omega arith))

  -- One round on the request that comes first.
  round_served :
      (clock : ℕ → ℕ) (r : Request) (p q rest : Bytes) (server server' : RpcServer)
      (response : Response F)
      → c.serialize r ≡ some p
      → length p < 2 ^ 32
      → d.serialize response ≡ some q
      → length q < 2 ^ 32
      → process_request env clock r server ≡ ok (response, server')
      → (sent written : Bytes) × (send_request c r ≡ ok sent)
        × (send_response d response ≡ ok written)
        × (round env c d s clock (s.delivers (sent ++ rest)) server
            ≡ ok (answered written server' (s.delivers rest)))
  unfolding round send_request send_response receive_request
  round_served clock r p q rest server server' response e l f k step =
      let (sent, e₁, e₂) = receive-send c s 0 r p rest (omega arith) e l in
      let (written, f₁, f₂) = receive-send d s 1 response q [] (omega arith) f k in
      (sent, written, e₁, f₁, rw (e₂, serve, step, answer, f₁, reply) refl)

  handle_connection_closed :
      (f : ℕ) (clock : ℕ → ℕ → ℕ) (n : ℕ) (server : RpcServer)
      → handle_connection env c d s (suc f) clock n (s.delivers []) server
        ≡ ok (record { written = []; server = server; error = none })
  unfolding handle_connection round
  handle_connection_closed f clock n server = rw (receive_closed, serve, closed, loop) refl

  handle_connection_next :
      (f : ℕ) (clock : ℕ → ℕ → ℕ) (n : ℕ) (st st' : s.Stream) (server server' : RpcServer)
      (bytes : Bytes) (e : Ended)
      → round env c d s (clock n) st server ≡ ok (answered bytes server' st')
      → handle_connection env c d s f clock (n + 1) st' server' ≡ ok e
      → handle_connection env c d s (suc f) clock n st server
        ≡ ok (record e { written = bytes ++ e.written })
  unfolding handle_connection
  handle_connection_next f clock n st st' server server' bytes e first run =
      rw (first, loop, run) refl

  -- A client that sends requests one after the other and then closes the connection is answered with
  -- the responses to them, each to the server as the requests before have left it, and the connection
  -- ends without an error: where all of them are processed, and requests and responses fit a packet.
  pub handle_connection-Processes :
      (clock : ℕ → ℕ → ℕ) (n : ℕ) (rs : List Request) (server last : RpcServer)
      (responses : List (Response F))
      → Processes env clock n server rs responses last
      → All (IsSendable c) rs
      → All (IsSendable d) responses
      → (sent written : Bytes) × (send_all (send_request c) rs ≡ ok sent)
        × (send_all (send_response d) responses ≡ ok written)
        × (handle_connection env c d s (suc (length rs)) clock n (s.delivers sent) server
            ≡ ok (record { written = written; server = last; error = none }))
  handle_connection-Processes clock n [] server last [] finished h k =
      ([], [], refl, refl, handle_connection_closed 0 clock n server)
  handle_connection-Processes clock n [] server last (response ∷ responses) run h k = elim run [ ]
  handle_connection-Processes clock n (r ∷ rs) server last [] run h k = elim run [ ]
  handle_connection-Processes clock n (r ∷ rs) server last (response ∷ responses)
        (processed {s' = server'} step rest) h k =
      let ((p, e, l), h') = h in
      let ((q, f, m), k') = k in
      let (back, back_written, e₁, f₁, run) =
        handle_connection-Processes clock (n + 1) rs server' last responses rest h' k' in
      let (sent, written, e₂, f₂, first) =
        round_served (clock n) r p q back server server' response e l f m step in
      (
        sent ++ back,
        written ++ back_written,
        rw (e₂, e₁) refl,
        rw (f₂, f₁) refl,
        handle_connection_next (suc (length rs)) clock n (s.delivers (sent ++ back))
            (s.delivers back) server server' written _ first run,
      )
