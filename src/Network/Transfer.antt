-- ===== src/Network/Transfer.antt =====
-- The bytes of a socket in src/gnb_network_service.c: `do_recv`, `do_send` and their counterparts for UDP.
use gnb_udp_over_tcp.Prelude.{
  ℕ, ◌+◌, ◌%◌, ◌^◌, Bool, true, false, Option, none, some, List, [], ◌∷◌, ◌==◌, if◌then◌else◌,
  length, memcpy, ◌>>=◌,
}
use gnb_udp_over_tcp.Tunnel.{Zbuf, buf_len, buf_remain, buf_bytes}
use gnb_udp_over_tcp.Address.{SockAddress}
use gnb_udp_over_tcp.Network.{
  type_eof, type_error, Event, Connection, State, Errno, Received, Sent, with_event_bit, Callback,
  tcp4_listen, tcp6_listen, tcpv4_connect, tcpv6_connect, udp4_socket, udp6_socket, eagain, eintr,
  enobufs, econnreset, enotconn, enetdown, other_errno, got, recv_failed, took, send_failed,
}

-- The bytes that a receive call writes at `las`. The new `las` is counted from `pos`.
unfoldable pub store_tcp : List ℕ → Zbuf → Option Zbuf
store_tcp bytes z =
    memcpy z.block z.las bytes >>= λ m. some (record z { block = m; las = z.pos + length bytes })

unfoldable pub store_udp : List ℕ → Zbuf → Option Zbuf
store_udp bytes z =
    memcpy z.block z.las bytes >>= λ m. some (record z { block = m; las = z.las + length bytes })

abbrev pub try_again : Errno → Bool
try_again eagain = true
try_again eintr = true
try_again enobufs = false
try_again econnreset = false
try_again enotconn = false
try_again enetdown = false
try_again other_errno = false

module _ {W : Type 0} (recv : ℕ → ℕ → W → Received × W) (recv_cb : Callback W) where
  unfoldable pub received : Connection → Zbuf → Received → State W → Option (State W)
  unfolding store_tcp
  received conn z (got []) s = some (with_event_bit type_eof s)
  received conn z (got (b ∷ bytes)) s = store_tcp (b ∷ bytes) z >>= λ z'.
      let n_recv = length (b ∷ bytes) in
      recv_cb (record s {
        conn = some (record conn {
          recv_zbuf = some z';
          n_recv = n_recv;
          n_recv_total = (conn.n_recv_total + n_recv) % 2 ^ 64;
        });
      })
  received conn z (recv_failed e) s =
      if try_again e then some s else recv_cb (with_event_bit type_error s)

  unfoldable pub do_recv : State W → Option (State W)
  unfolding received buf_remain
  do_recv s = do
    conn ← s.conn
    z ← conn.recv_zbuf
    let r = recv s.event.fd (buf_remain z) s.world
    received conn z r.0 (record s { world = r.1 })

-- The cases of `errno` after `send`: no more is done, or the event gets a bit.
abbrev pub send_error_bit : Errno → Option ℕ
send_error_bit eagain = none
send_error_bit eintr = none
send_error_bit enobufs = none
send_error_bit econnreset = some type_eof
send_error_bit enotconn = some type_eof
send_error_bit enetdown = some type_eof
send_error_bit other_errno = some type_error

-- The fields after `n` bytes were taken.
unfoldable pub count_sent : ℕ → Zbuf → Connection → Connection
count_sent n z conn = record conn {
  send_zbuf = some (record z { pos = z.pos + n });
  n_send = n;
  n_send_total = (conn.n_send_total + n) % 2 ^ 64;
}

module _ {W : Type 0} (send : ℕ → List ℕ → W → Sent × W) (disable_write : Event → W → W)
    (send_cb : Callback W) where
  unfoldable pub send_finish : State W → Option (State W)
  send_finish s = send_cb (record s { world = disable_write s.event s.world })

  unfoldable pub after_tcp_send : Connection → Zbuf → Sent → State W → Option (State W)
  unfolding send_finish count_sent
  after_tcp_send conn z (took n) s = send_finish (record s { conn = some (count_sent n z conn) })
  after_tcp_send conn z (send_failed e) s = elim (send_error_bit e) [
    | none ↦ some s
    | some bit ↦ send_finish (with_event_bit bit s)
  ]

  unfoldable pub do_send : State W → Option (State W)
  unfolding after_tcp_send send_finish buf_len buf_bytes
  do_send s = do
    conn ← s.conn
    z ← conn.send_zbuf
    let r = send conn.fd (buf_bytes z) s.world
    if buf_len z == 0 then send_finish s else after_tcp_send conn z r.0 (record s { world = r.1 })

  unfoldable pub after_udp_send : Connection → Zbuf → Sent → State W → State W
  unfolding count_sent
  after_udp_send conn z (took n) s = record s { conn = some (count_sent n z conn) }
  after_udp_send conn z (send_failed e) s = s

  -- The socket's address family only decides which address is passed; the callback comes first.
  unfoldable pub do_udp_send : State W → Option (State W)
  unfolding after_udp_send buf_bytes
  do_udp_send s = do
    conn ← s.conn
    z ← conn.send_zbuf
    let r = send conn.fd (buf_bytes z) s.world
    s' ← send_cb (after_udp_send conn z r.0 (record s { world = r.1 }))
    some (record s' { world = disable_write s'.event s'.world })

-- `recvfrom` also gives the address of the peer.
module _ {W : Type 0} (recvfrom : ℕ → ℕ → W → Received × (SockAddress × W))
    (recv_cb : Callback W) where
  unfoldable pub udp_received : Connection → Zbuf → Received → State W → Option (State W)
  unfolding store_udp
  udp_received conn z (recv_failed e) s = some s
  udp_received conn z (got bytes) s = store_udp bytes z >>= λ z'. recv_cb (record s {
    conn =
        some (record conn { recv_zbuf = some z'; n_recv = (conn.n_recv + length bytes) % 2 ^ 64 });
  })

  unfoldable pub recv_datagram : State W → Option (State W)
  unfolding udp_received buf_remain
  recv_datagram s = do
    conn ← s.conn
    z ← conn.recv_zbuf
    let r = recvfrom conn.fd (buf_remain z) s.world
    let conn' = record conn { remote_sockaddress = r.1.0 }
    udp_received conn' z r.0 (record s { conn = some conn'; world = r.1.1 })

  unfoldable pub do_udp_recv : State W → Option (State W)
  unfolding recv_datagram
  do_udp_recv s = elim s.event.fd_type [
    | udp6_socket ↦ recv_datagram s
    | udp4_socket ↦ recv_datagram s
    | tcp4_listen ↦ some s
    | tcp6_listen ↦ some s
    | tcpv4_connect ↦ some s
    | tcpv6_connect ↦ some s
  ]
