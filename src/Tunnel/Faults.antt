-- ===== src/Tunnel/Faults.antt =====
-- Where the services fail: a send buffer with room for the data but not for the head, a datagram that
-- the peer does not admit, and a datagram while there is no TCP connection.
use gnb_udp_over_tcp.Prelude.{
  memcpy-outside, length-memcpy, ℕ, zero, suc, ◌+◌, ◌/◌, ◌%◌, ◌≤◌, ◌<◌, ◌≡◌, refl, ap, ◌∙◌, subst,
  true, false, Option, none, some, List, [], ◌∷◌, ◌++◌, ltb, ◌==◌, length, memcpy, ntohs, arith,
  inl, inr, Option-cases, flatten,
}
use gnb_udp_over_tcp.Payload.{Ctx, returned, error, payload16_set_data_len}
use gnb_udp_over_tcp.Payload.Stream.{pending, refused, feed, push, admit}
use gnb_udp_over_tcp.Payload.Held.{Holds, Agrees}
use gnb_udp_over_tcp.Payload.Feed.{feed-refused}
use gnb_udp_over_tcp.Payload.Handle.{handle_all}
use gnb_udp_over_tcp.Payload.Chunks.{handle_all-Agrees}
use gnb_udp_over_tcp.Tunnel.{Zbuf, buf_len, buf_remain, buf_bytes, Conn, put_frame, handle_udp}
use gnb_udp_over_tcp.Tunnel.UdpSide.{Client, client_handle_udp, client_close_cb}
use gnb_udp_over_tcp.Tunnel.TcpSide.{Server, server_callback}
use gnb_udp_over_tcp.Tunnel.Enqueue.{InBlock, frame, length-buf_bytes, handle_udp-put_frame}
use gnb_udp_over_tcp.Tunnel.Relay.{size_lem, server_callback-ReadsFrame}

-- The bytes that a frame of `len` bytes of data is written to: the sub type is not written, so that
-- they end with the type where there are no data.
abbrev pub frame_extent : ℕ → ℕ
frame_extent zero = 3
frame_extent (suc len) = suc len + 4

put_frame-outside :
    (z : Zbuf) (type len : ℕ) (bytes : List ℕ)
    → length z.block < z.las + frame_extent (length bytes)
    → put_frame z type len bytes ≡ none
unfolding put_frame
put_frame-outside z type len [] h =
    elim (Option-cases (memcpy z.block z.las (payload16_set_data_len (0 ∷ 0 ∷ []) len).0)) [
      | inl gone ↦ rw gone refl
      | inr (m₁, e₁) ↦
          let size = length-memcpy z.block z.las _ m₁ e₁ in
          let out = memcpy-outside m₁ (z.las + 2) (type ∷ []) (omega arith) (omega arith) in
          rw (e₁, out) refl
    ]
put_frame-outside z type len (b ∷ bytes) h =
    elim (Option-cases (memcpy z.block z.las (payload16_set_data_len (0 ∷ 0 ∷ []) len).0)) [
      | inl gone ↦ rw gone refl
      | inr (m₁, e₁) ↦ elim (Option-cases (memcpy m₁ (z.las + 2) (type ∷ []))) [
        | inl gone ↦ rw (e₁, gone) refl
        | inr (m₂, e₂) ↦
            let size = length-memcpy z.block z.las _ m₁ e₁ in
            let size' = length-memcpy m₁ (z.las + 2) (type ∷ []) m₂ e₂ in
            let out = memcpy-outside m₂ (z.las + 4) (b ∷ bytes) (omega arith) (omega arith) in
            rw (e₁, e₂, out) refl
      ]
    ]

feed-large :
    {S : Type 0} (max : ℕ) (cb : List ℕ → S → S) (hi lo : ℕ) (tail : List ℕ) (s : S)
    → max < ntohs (hi ∷ lo ∷ [])
    → feed max cb (pending [] s) (hi ∷ lo ∷ tail) ≡ refused 3 s
unfolding feed push admit
feed-large max cb hi lo tail s large =
    let nonzero : (ntohs (hi ∷ lo ∷ []) == 0) ≡ false = ground arith in
    let over : ltb max (ntohs (hi ∷ lo ∷ [])) ≡ true = ground arith in
    rw (nonzero, over) (feed-refused max cb 3 s tail)

module _ {W : Type 0} (sendto : Conn → List ℕ → W → Option ℕ × W) (set_event : Conn → W → W) where
  -- For two buffers with their pointers in order within their blocks, where the send buffer has
  -- room for the datagram but not for what handle_udp writes for it (four bytes more than a
  -- datagram that has bytes, three for an empty one): handle_udp writes behind the block of the
  -- send buffer.
  pub handle_udp-overflow :
      (udp tcp : Conn) (w : W)
      → InBlock udp.recv_zbuf
      → InBlock tcp.send_zbuf
      → buf_len udp.recv_zbuf ≤ buf_remain tcp.send_zbuf
      → buf_remain tcp.send_zbuf < frame_extent (buf_len udp.recv_zbuf)
      → handle_udp sendto set_event udp tcp w ≡ none
  unfolding buf_remain
  handle_udp-overflow udp tcp w i j fits tight =
      let len = length-buf_bytes udp.recv_zbuf i in
      let k = j.las_le in
      let over : length tcp.send_zbuf.block
          < tcp.send_zbuf.las + frame_extent (length (buf_bytes udp.recv_zbuf)) =
        rw len (omega arith) in
      rw
        (
          handle_udp-put_frame sendto set_event udp tcp w fits,
          put_frame-outside tcp.send_zbuf b'o' (buf_len udp.recv_zbuf) (buf_bytes udp.recv_zbuf)
              over,
        )
        refl

  -- For a client with a TCP connection: service_close_cb returns, and a datagram that comes next
  -- makes handle_udp read a field of NULL.
  pub close-handle_udp-fault :
      (release : Conn → W → W) (tcp : Conn) (n : Client W)
      → n.tcp_conn ≡ some tcp
      → (n' : Client W) × (client_close_cb sendto set_event release n ≡ some n')
        × (client_handle_udp sendto set_event n' ≡ none)
  unfolding client_close_cb client_handle_udp
  close-handle_udp-fault release tcp n here =
      (record n { tcp_conn = none; world = release tcp n.world }, rw here refl, refl)

  -- For a context that holds nothing, and a datagram below 65532 bytes that exceeds the context's
  -- limit with its head: however the bytes of its frame and what follows are cut into chunks, the
  -- calls of gnb_payload16_handle end in the error -3 and nothing is sent.
  pub large-refused :
      (max k : ℕ) (c : Ctx) (n : Server W) (d rest : List ℕ) (chunks : List (List ℕ))
      → c.max_payload_size ≡ max
      → Holds c []
      → max < length d + 4
      → length d < 65532
      → flatten chunks ≡ frame b'o' k (length d) d ++ rest
      → (c' : Ctx) × (handle_all (server_callback sendto set_event) chunks c (some n)
          ≡ returned (error 3) c' (some n))
  large-refused max k c n d rest chunks e held large small cut =
      let cb = server_callback sendto set_event in
      let hi = (length d + 4) / 256 % 256 in
      let lo = (length d + 4) % 256 in
      let size = size_lem (length d) small in
      let says : feed max cb (pending [] (some n)) (hi ∷ lo ∷ b'o' ∷ k ∷ d ++ rest)
          ≡ refused 3 (some n) =
        feed-large max cb hi lo (b'o' ∷ k ∷ d ++ rest) (some n) (omega arith) in
      subst (λ st. Agrees max st (handle_all cb chunks c (some n)))
        (ap (feed max cb (pending [] (some n))) cut ∙ says)
        (handle_all-Agrees max cb chunks c [] (some n) (server_callback-ReadsFrame sendto set_event)
          e held)
