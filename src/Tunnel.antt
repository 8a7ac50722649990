-- ===== src/Tunnel.antt =====
-- src/gnb_buf.c and what the two services under src/service/ share: the buffers of a connection, and
-- the relay of a datagram to the TCP stream and of a frame to the UDP socket.
-- The system is a state `W` with `sendto` and the event handler's `set_event` as parameters.
pub mod UdpSide
pub mod TcpSide
pub mod Enqueue
pub mod Relay
pub mod Keepalive
pub mod Timers
pub mod Faults
pub mod EndToEnd
mod Tests
use gnb_udp_over_tcp.Prelude.{
  ◌>>=◌, ℕ, Bool, ◌+◌, ◌-◌, ◌*◌, ◌/◌, ◌%◌, ◌^◌, Option, none, some, List, [], ◌∷◌, ltb, ◌==◌,
  if◌then◌else◌, length, take, drop, memcpy,
}
use gnb_udp_over_tcp.Payload.{
  payload16_set_data_len, payload16_size, payload16_data_len, payload16_data,
}

-- Pointers into the block are offsets; `start` is 0 and `end` the length of the block.
pub record Zbuf : Type 0 where
  pub block : List ℕ
  pub pos : ℕ
  pub las : ℕ

unfoldable pub zbuf_alloc : List ℕ → Zbuf
zbuf_alloc junk = record { block = junk; pos = 0; las = 0 }

unfoldable pub zbuf_reset : Zbuf → Zbuf
zbuf_reset z = record z { pos = 0; las = 0 }

unfoldable pub buf_len : Zbuf → ℕ
buf_len z = z.las - z.pos

unfoldable pub buf_remain : Zbuf → ℕ
buf_remain z = length z.block - z.las

unfoldable pub buf_size : Zbuf → ℕ
buf_size z = length z.block

-- The bytes from `pos` to `las`.
unfoldable pub buf_bytes : Zbuf → List ℕ
unfolding buf_len
buf_bytes z = take (buf_len z) (drop z.pos z.block)

pub data FdType : Type 0 where
  udp4_socket : FdType
  udp6_socket : FdType
  tcpv4_connect : FdType
  other_fd : FdType

-- `remote` and `fd` name the peer and the socket to the system. The two buffers are NULL until the
-- connection is made: `has_zbufs` says whether they are there, and the fields mean nothing before.
pub record Conn : Type 0 where
  pub fd : ℕ
  pub fd_type : FdType
  pub remote : ℕ
  pub status : ℕ
  pub has_zbufs : Bool
  pub recv_zbuf : Zbuf
  pub send_zbuf : Zbuf
  pub n_send : ℕ
  pub n_send_total : ℕ

abbrev pub tcp_connect_finish : ℕ
tcp_connect_finish = 5

-- A frame of `len` bytes of data at `las`, of which `bytes` are written; the sub type stays what it
-- was. `none` is a write behind the block.
unfoldable pub put_frame : Zbuf → ℕ → ℕ → List ℕ → Option Zbuf
unfolding payload16_set_data_len payload16_size
put_frame z type len bytes =
    memcpy z.block z.las (payload16_set_data_len (0 ∷ 0 ∷ []) len).0 >>= λ m₁.
    memcpy m₁ (z.las + 2) (type ∷ []) >>= λ m₂. memcpy m₂ (z.las + 4) bytes >>= λ m₃.
    some (record z { block = m₃; las = z.las + payload16_size (drop z.las m₃) })

-- The eight bytes of `gnb_htonll(n)`.
unfoldable pub htonll_bytes : ℕ → List ℕ
htonll_bytes n =
    n / 2 ^ 56 % 256
    ∷ n / 2 ^ 48 % 256
    ∷ n / 2 ^ 40 % 256
    ∷ n / 2 ^ 32 % 256
    ∷ n / 2 ^ 24 % 256
    ∷ n / 2 ^ 16 % 256
    ∷ n / 2 ^ 8 % 256
    ∷ n % 256
    ∷ []

-- The time since `t` in `uint64_t`.
unfoldable pub elapsed : ℕ → ℕ → ℕ
elapsed now t = (now + 2 ^ 64 - t) % 2 ^ 64

abbrev pub keepalive_timeout_sec : ℕ
keepalive_timeout_sec = 15

-- `sendto` of the bytes to a peer; `none` is -1. `set_event` enables the write event of a socket.
module _ {W : Type 0} (sendto : Conn → List ℕ → W → Option ℕ × W) (set_event : Conn → W → W) where
  unfoldable pub sent : Conn → Option ℕ × W → Option ℕ × (Conn × W)
  sent conn (none, w) = (none, (conn, w))
  sent conn (some n, w) = (
    some n,
    (
      record conn {
        send_zbuf = record conn.send_zbuf { pos = conn.send_zbuf.pos + n };
        n_send = n;
        n_send_total = (conn.n_send_total + n) % 2 ^ 64;
      },
      w,
    ),
  )

  unfoldable pub udp_send : Conn → W → Option ℕ × (Conn × W)
  unfolding sent buf_bytes
  udp_send conn w = elim conn.fd_type [
    | udp6_socket ↦ sent conn (sendto conn (buf_bytes conn.send_zbuf) w)
    | udp4_socket ↦ sent conn (sendto conn (buf_bytes conn.send_zbuf) w)
    | tcpv4_connect ↦ sent conn (some 0, w)
    | other_fd ↦ sent conn (some 0, w)
  ]

  -- What follows the call of `gnb_network_service_udp_send`.
  unfoldable pub after_send : Option ℕ × (Conn × W) → Conn × W
  unfolding zbuf_reset
  after_send (none, (conn, w)) = (conn, set_event conn w)
  after_send (some n, (conn, w)) =
      if ltb 0 n then (record conn { send_zbuf = zbuf_reset conn.send_zbuf }, w) else (conn, w)

  -- `mem` is the payload block; `none` is a read or a write outside of a block.
  unfoldable pub tcp_to_udp : List ℕ → Conn → W → Option (Conn × W)
  unfolding payload16_size payload16_data_len payload16_data zbuf_reset buf_remain udp_send
      after_send
  tcp_to_udp mem udp w =
      let z = zbuf_reset udp.send_zbuf in
      let data_len = payload16_data_len mem in
      if ltb (buf_remain z) (payload16_size mem)
      then some (record udp { send_zbuf = z }, w)
      else if ltb (length (payload16_data mem)) data_len
      then none
      else (memcpy z.block z.pos (take data_len (payload16_data mem)) >>= λ m. some (
          after_send (
            udp_send (record udp { send_zbuf = record z { block = m; las = z.las + data_len } })
              w)))

  -- The datagram in the receive buffer goes to the send buffer of the TCP connection, for connections
  -- that have their buffers.
  unfoldable pub handle_udp : Conn → Conn → W → Option ((Conn × Conn) × W)
  unfolding buf_len buf_size buf_remain buf_bytes zbuf_reset put_frame
  handle_udp udp tcp w =
      let recv_len = buf_len udp.recv_zbuf in
      let udp' = record udp { recv_zbuf = zbuf_reset udp.recv_zbuf } in
      if ltb (buf_size tcp.send_zbuf) recv_len
      then some ((udp', tcp), w)
      else if ltb (buf_remain tcp.send_zbuf) recv_len
      then some ((udp', tcp), set_event tcp w)
      else (put_frame tcp.send_zbuf b'o' recv_len (buf_bytes udp.recv_zbuf) >>= λ z.
          some ((udp', record tcp { send_zbuf = z }), set_event tcp w))
