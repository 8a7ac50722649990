-- ===== src/Tunnel/UdpSide.antt =====
-- src/service/uot_udp_service.c: the side that listens for datagrams and connects by TCP.
use gnb_udp_over_tcp.Prelude.{
  ◌>>=◌, ℕ, ◌==◌, Option, none, some, List, [], ◌∷◌, ◌++◌, ltb, if◌then◌else◌,
}
use gnb_udp_over_tcp.Payload.{
  Ctx, ctx_init, Ret, handled, error, Outcome, returned, fault, out_of_fuel, payload16_type,
  payload16_handle,
}
use gnb_udp_over_tcp.Tunnel.{
  zbuf_reset, buf_remain, buf_bytes, FdType, udp4_socket, udp6_socket, tcpv4_connect, other_fd,
  Conn, tcp_connect_finish, put_frame, htonll_bytes, elapsed, keepalive_timeout_sec, tcp_to_udp,
  handle_udp,
}

abbrev pub reconnect_interval_sec : ℕ
reconnect_interval_sec = 5

abbrev pub send_keepalive_interval_sec : ℕ
send_keepalive_interval_sec = 3

abbrev pub max_tcp_payload_size : ℕ
max_tcp_payload_size = 4096

-- `uot_channel_t` with the clock of the service and the system; the payload context stands apart.
-- A TCP connection that is NULL is `none`.
pub record Client (W : Type 0) : Type 0 where
  pub tcp_conn : Option Conn
  pub udp_conn : Conn
  pub last_reconnect_time_sec : ℕ
  pub keepalive_ts_sec : ℕ
  pub last_send_keepalive_ts_sec : ℕ
  pub now_time_sec : ℕ
  pub world : W

module _ {W : Type 0} (sendto : Conn → List ℕ → W → Option ℕ × W) (set_event : Conn → W → W) where
  -- `service_init_cb`, with the UDP connection that `service_listen_cb` sets.
  unfoldable pub client_init : List ℕ → Conn → ℕ → W → Ctx × Client W
  unfolding ctx_init
  client_init junk udp now w = (
    ctx_init junk max_tcp_payload_size,
    record {
      tcp_conn = none;
      udp_conn = udp;
      last_reconnect_time_sec = 0;
      keepalive_ts_sec = 0;
      last_send_keepalive_ts_sec = 0;
      now_time_sec = now;
      world = w;
    },
  )

  -- `fresh` is the connection as `gnb_network_service_connect` leaves it: with buffers where `connect`
  -- was done at once, without them while it waits and after it has failed.
  unfoldable pub try_tcp_connect : Conn → Client W → Client W
  try_tcp_connect fresh n = record n {
    tcp_conn = some fresh;
    keepalive_ts_sec = n.now_time_sec;
    last_reconnect_time_sec = n.now_time_sec;
  }

  unfoldable pub handle_keepalive : Client W → Client W
  handle_keepalive n = record n { keepalive_ts_sec = n.now_time_sec }

  unfoldable pub client_tcp_to_udp : List ℕ → Client W → Option (Client W)
  unfolding tcp_to_udp
  client_tcp_to_udp mem n = tcp_to_udp sendto set_event mem n.udp_conn n.world >>= λ (udp, w).
      some (record n { udp_conn = udp; world = w })

  -- `payload16_handle_callback`; after a fault nothing more happens.
  unfoldable pub client_callback : List ℕ → Option (Client W) → Option (Client W)
  unfolding payload16_type client_tcp_to_udp handle_keepalive
  client_callback mem s = s >>= λ n.
      if payload16_type mem == b'o'
      then client_tcp_to_udp mem n
      else if payload16_type mem == b'k'
      then some (handle_keepalive n)
      else some n

  -- `none` reads a field of NULL, or writes outside of a block.
  unfoldable pub client_handle_udp : Client W → Option (Client W)
  unfolding handle_udp
  client_handle_udp n = n.tcp_conn >>= λ tcp.
      if tcp.has_zbufs
      then (handle_udp sendto set_event n.udp_conn tcp n.world >>= λ ((udp, tcp'), w).
          some (record n { udp_conn = udp; tcp_conn = some tcp'; world = w }))
      else none

  -- The end of `handle_tcp`, after `gnb_payload16_handle` returned.
  unfoldable pub client_after_handle : Ret → Client W → Option (Client W)
  unfolding zbuf_reset
  client_after_handle (error e) n = n.tcp_conn >>= λ tcp.
      some (record n { tcp_conn = some (record tcp { status = tcp_connect_finish }) })
  client_after_handle handled n = n.tcp_conn >>= λ tcp. some (record n {
    tcp_conn = some (record tcp { recv_zbuf = zbuf_reset tcp.recv_zbuf });
    keepalive_ts_sec = n.now_time_sec;
  })

  unfoldable pub client_handle_tcp : Ctx → Client W → Outcome (Option (Client W))
  unfolding payload16_handle client_callback client_after_handle buf_bytes
  client_handle_tcp c n = elim n.tcp_conn [
    | none ↦ fault
    | some tcp ↦
        if tcp.has_zbufs
        then elim (payload16_handle client_callback (buf_bytes tcp.recv_zbuf) c (some n)) [
          | returned r c' s ↦ returned r c' (s >>= λ n'. client_after_handle r n')
          | fault ↦ fault
          | out_of_fuel ↦ out_of_fuel
        ]
        else fault
  ]

  -- `service_recv_cb` for a connection of the given type with its channel.
  unfoldable pub client_recv_cb : FdType → Ctx → Client W → Outcome (Option (Client W))
  unfolding client_handle_udp client_handle_tcp
  client_recv_cb udp4_socket c n = returned handled c (client_handle_udp n)
  client_recv_cb tcpv4_connect c n = client_handle_tcp c n
  client_recv_cb udp6_socket c n = returned handled c (some n)
  client_recv_cb other_fd c n = returned handled c (some n)

  -- `service_close_cb`; `release` gives the memory of the connection back.
  unfoldable pub client_close_cb : (Conn → W → W) → Client W → Option (Client W)
  client_close_cb release n =
      n.tcp_conn >>= λ tcp. some (record n { tcp_conn = none; world = release tcp n.world })

  -- `snprintf` writes the text and its NUL. Without a send buffer a field of NULL is read.
  unfoldable pub send_keepalive_frame : Conn → Client W → Option (Client W)
  unfolding buf_remain put_frame htonll_bytes
  send_keepalive_frame tcp n =
      if tcp.has_zbufs
      then (if ltb (buf_remain tcp.send_zbuf) 28
          then some (record n { world = set_event tcp n.world })
          else (put_frame tcp.send_zbuf b'k' 24 (
                htonll_bytes n.now_time_sec
                ++ b'k' ∷ b'e' ∷ b'e' ∷ b'p' ∷ b'a' ∷ b'l' ∷ b'i' ∷ b'v' ∷ b'e' ∷ 0 ∷ [])
              >>= λ z. some (record n {
                tcp_conn = some (record tcp { send_zbuf = z });
                world = set_event tcp n.world;
              })))
      else none

  -- `close` stands for `gnb_connection_close` and `gnb_connection_release`.
  unfoldable pub check_timeout : (Conn → W → W) → Conn → Client W → Client W
  unfolding elapsed
  check_timeout close tcp n =
      if ltb keepalive_timeout_sec (elapsed n.now_time_sec n.keepalive_ts_sec)
      then record n { tcp_conn = none; world = close tcp n.world }
      else n

  unfoldable pub client_idle_cb : Conn → (Conn → W → W) → Client W → Option (Client W)
  unfolding try_tcp_connect send_keepalive_frame check_timeout elapsed
  client_idle_cb fresh close n = elim n.tcp_conn [
    | none ↦
        if ltb reconnect_interval_sec (elapsed n.now_time_sec n.last_reconnect_time_sec)
        then some (try_tcp_connect fresh n)
        else some n
    | some tcp ↦
        if ltb send_keepalive_interval_sec (elapsed n.now_time_sec n.last_send_keepalive_ts_sec)
        then (send_keepalive_frame tcp n >>= λ n'.
            some (record n' { last_send_keepalive_ts_sec = n.now_time_sec }))
        else some (check_timeout close tcp n)
  ]
