-- ===== src/Tunnel/EndToEnd.antt =====
-- Both services together: what `handle_udp` puts in the send buffer of a channel, and what the TCP side
-- of the other end makes of the stream.
use gnb_udp_over_tcp.Prelude.{
  ◌>>=◌, ℕ, ◌+◌, ◌≤◌, ◌<◌, ◌≡◌, refl, ap, ◌∙◌, sym, Option, some, List, [], ◌∷◌, ◌++◌, length,
  append_assoc, append-nil, arith, flatten,
}
use gnb_udp_over_tcp.Payload.{Ctx, returned, handled}
use gnb_udp_over_tcp.Payload.Held.{Holds}
use gnb_udp_over_tcp.Payload.Handle.{handle_all}
use gnb_udp_over_tcp.Tunnel.{Zbuf, zbuf_reset, buf_len, buf_remain, buf_bytes, Conn, handle_udp}
use gnb_udp_over_tcp.Tunnel.TcpSide.{Server, server_callback}
use gnb_udp_over_tcp.Tunnel.Enqueue.{frame, InBlock, handle_udp-enqueues, length-buf_bytes}
use gnb_udp_over_tcp.Tunnel.Relay.{IsReady, datagram_frames, AllWithin, delivered, datagrams-arrive}

-- The sizes of the frames of what the receive buffers hold.
abbrev pub frames_size : List Zbuf → ℕ
frames_size [] = 0
frames_size (r ∷ rs) = buf_len r + 4 + frames_size rs

-- Receive buffers in order, each with a datagram that fits the limit with its head.
abbrev pub AllReceived : ℕ → List Zbuf → Type 0
AllReceived max [] = Unit
AllReceived max (r ∷ rs) = InBlock r × (buf_len r + 4 ≤ max) × AllReceived max rs

-- The datagrams, with any sub types, are what the receive buffers hold.
abbrev pub Carry : List (ℕ × List ℕ) → List Zbuf → Type 0
Carry [] [] = Unit
Carry [] (r ∷ rs) = ⊥
Carry (kd ∷ ds) [] = ⊥
Carry ((k, d) ∷ ds) (r ∷ rs) = (d ≡ buf_bytes r) × Carry ds rs

Carry-AllWithin :
    (max : ℕ) (ds : List (ℕ × List ℕ)) (rs : List Zbuf)
    → Carry ds rs
    → AllReceived max rs
    → AllWithin max ds
Carry-AllWithin max [] rs c a = tt
Carry-AllWithin max (kd ∷ ds) [] c a = absurd c
Carry-AllWithin max ((k, d) ∷ ds) (r ∷ rs) (e, c) (i, fits, a) =
    (omega (arith, ap length e, length-buf_bytes r i), Carry-AllWithin max ds rs c a)

-- The datagrams of the receive buffers reach `remote`, one after the other.
abbrev pub handed_over : {W : Type 0} → (ℕ → List ℕ → W → W) → ℕ → List Zbuf → W → W
handed_over deliver remote [] w = w
handed_over deliver remote (r ∷ rs) w =
    handed_over deliver remote rs (deliver remote (buf_bytes r) w)

module _ {W : Type 0} (sendto : Conn → List ℕ → W → Option ℕ × W) (set_event : Conn → W → W) where
  -- `handle_udp` after each read of the UDP socket, which fills the receive buffer.
  abbrev pub handle_each : List Zbuf → (Conn × Conn) × W → Option ((Conn × Conn) × W)
  handle_each [] s = some s
  handle_each (r ∷ rs) ((udp, tcp), w) =
      handle_udp sendto set_event (record udp { recv_zbuf = r }) tcp w >>= handle_each rs

  -- The pair after the reads, with the frames of the datagrams behind the bytes of the send buffer.
  abbrev Queued : List Zbuf → (Conn × Conn) × W → List (ℕ × List ℕ) → (Conn × Conn) × W → Type 0
  Queued rs ((udp, tcp), w) ds ((udp', tcp'), w') =
      InBlock tcp'.send_zbuf
      × (buf_bytes tcp'.send_zbuf ≡ buf_bytes tcp.send_zbuf ++ flatten (datagram_frames ds))
      × Carry ds rs

  handle_each-Queued :
      (max : ℕ) (rs : List Zbuf) (udp tcp : Conn) (w : W)
      → max < 65536
      → AllReceived max rs
      → InBlock tcp.send_zbuf
      → frames_size rs ≤ buf_remain tcp.send_zbuf
      → (s : (Conn × Conn) × W) × (ds : List (ℕ × List ℕ)) × (handle_each rs ((udp, tcp), w)
          ≡ some s)
        × Queued rs ((udp, tcp), w) ds s
  unfolding flatten
  handle_each-Queued max [] udp tcp w small a i room =
      (((udp, tcp), w), [], refl, (i, sym (append-nil _), tt))
  handle_each-Queued max (r ∷ rs) udp tcp w small (ir, fits, a) i room =
      let (z, e, (i', pos', len', rem', k, bytes)) =
        handle_udp-enqueues sendto set_event (record udp { recv_zbuf = r }) tcp w ir i (omega arith)
          (omega arith) in
      let udp' : Conn = record udp { recv_zbuf = zbuf_reset r } in
      let tcp' : Conn = record tcp { send_zbuf = z } in
      let (s, ds, e', (i'', bytes', c)) =
        handle_each-Queued max rs udp' tcp' (set_event tcp w) small a i' (omega arith) in
      (
        s,
        (k, buf_bytes r) ∷ ds,
        rw e e',
        (
          i'',
          bytes'
              ∙ ap (λ t. t ++ flatten (datagram_frames ds))
                  (bytes
                    ∙ ap (λ n. buf_bytes tcp.send_zbuf ++ frame b'o' k n (buf_bytes r))
                        (sym (length-buf_bytes r ir)))
              ∙ append_assoc (buf_bytes tcp.send_zbuf)
                  (frame b'o' k (length (buf_bytes r)) (buf_bytes r))
                  (flatten (datagram_frames ds)),
          (refl, c),
        ),
      )

module _ {V : Type 0} (sendto : Conn → List ℕ → V → Option ℕ × V) (set_event : Conn → V → V)
    (deliver : ℕ → List ℕ → V → V)
    (whole : (conn : Conn) (bytes : List ℕ) (w : V)
      → sendto conn bytes w ≡ (some (length bytes), deliver conn.remote bytes w)) where
  Carry-handed_over :
      (remote : ℕ) (ds : List (ℕ × List ℕ)) (rs : List Zbuf) (w : V)
      → Carry ds rs
      → delivered sendto set_event deliver whole remote ds w ≡ handed_over deliver remote rs w
  Carry-handed_over remote [] [] w c = refl
  Carry-handed_over remote [] (r ∷ rs) w c = absurd c
  Carry-handed_over remote (kd ∷ ds) [] w c = absurd c
  Carry-handed_over remote ((k, d) ∷ ds) (r ∷ rs) w (e, c) =
      Carry-handed_over remote ds rs (deliver remote d w) c
      ∙ ap (λ x. handed_over deliver remote rs (deliver remote x w)) e

  module _ {W : Type 0} (client_sendto : Conn → List ℕ → W → Option ℕ × W)
      (client_set_event : Conn → W → W) where
    -- For a channel whose sender has an empty send buffer with its pointers in order, with room
    -- for the frames of the datagrams that it reads from the UDP socket, each in a receive buffer
    -- with its pointers in order and within the receiver's limit of at most 65535 with its head; a
    -- receiver whose system takes every datagram whole, whose context holds nothing, and whose UDP
    -- connection over IPv4 has a send buffer of at least the size of the limit; and any way to cut
    -- the stream: handle_udp returns for each datagram, and when the bytes of the send buffer have
    -- gone through gnb_payload16_handle, cut that way, the datagrams have been sent to the
    -- receiver's peer, each once, unchanged and in order, and the context holds nothing again.
    pub handle_udp-arrives :
        (max room : ℕ) (rs : List Zbuf) (udp tcp : Conn) (w : W) (c : Ctx) (n : Server V)
        (cut : List ℕ → List (List ℕ))
        → ((stream : List ℕ) → flatten (cut stream) ≡ stream)
        → AllReceived max rs
        → InBlock tcp.send_zbuf
        → buf_bytes tcp.send_zbuf ≡ []
        → frames_size rs ≤ buf_remain tcp.send_zbuf
        → c.max_payload_size ≡ max
        → max ≤ room
        → max < 65536
        → Holds c []
        → IsReady n.udp_conn.remote room n.udp_conn
        → (udp' tcp' : Conn) × (w' : W) × (c' : Ctx) × (peer : Conn) × (handle_each client_sendto
              client_set_event rs
              ((udp, tcp), w)
            ≡ some ((udp', tcp'), w'))
          × (handle_all
                (server_callback sendto set_event)
                (cut (buf_bytes tcp'.send_zbuf))
                c
                (some n)
              ≡ returned handled c' (
                  some (record n {
                    udp_conn = peer;
                    world = handed_over deliver n.udp_conn.remote rs n.world;
                  })))
          × Holds c' []
    handle_udp-arrives max room rs udp tcp w c n cut whole_cut a i empty fits limit le small held
          ready =
        let (((udp', tcp'), w'), ds, e, (i', bytes, carry)) =
          handle_each-Queued client_sendto client_set_event max rs udp tcp w small a i fits in
        let stream : buf_bytes tcp'.send_zbuf ≡ flatten (datagram_frames ds) =
          bytes ∙ ap (λ t. t ++ flatten (datagram_frames ds)) empty in
        let sent = buf_bytes tcp'.send_zbuf in
        let (c', peer, arrives, held', ready') =
          datagrams-arrive sendto set_event deliver whole max room c n ds (cut sent) limit le small
            held ready (Carry-AllWithin max ds rs carry a) (whole_cut sent ∙ stream) in
        let world = Carry-handed_over n.udp_conn.remote ds rs n.world carry in
        (
          udp',
          tcp',
          w',
          c',
          peer,
          e,
          arrives
              ∙ ap (λ v. returned handled c' (some (record n { udp_conn = peer; world = v })))
                  world,
          held',
        )
