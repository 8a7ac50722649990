-- ===== src/Tunnel/TcpSide.antt =====
-- src/service/uot_tcp_service.c: the side that accepts TCP connections and sends the datagrams on.
use gnb_udp_over_tcp.Prelude.{◌>>=◌, ℕ, ◌==◌, Option, some, List, [], ◌∷◌, ◌++◌, ltb, if◌then◌else◌}
use gnb_udp_over_tcp.Payload.{
  Ctx, Ret, handled, error, Outcome, returned, fault, out_of_fuel, payload16_type, payload16_handle,
}
use gnb_udp_over_tcp.Tunnel.{
  zbuf_reset, buf_remain, buf_bytes, FdType, udp4_socket, udp6_socket, tcpv4_connect, other_fd,
  Conn, tcp_connect_finish, put_frame, htonll_bytes, tcp_to_udp, handle_udp,
}

-- The channel of one connection, with the clock of the service and the system.
pub record Server (W : Type 0) : Type 0 where
  pub tcp_conn : Conn
  pub udp_conn : Conn
  pub keepalive_ts_sec : ℕ
  pub now_time_sec : ℕ
  pub world : W

module _ {W : Type 0} (sendto : Conn → List ℕ → W → Option ℕ × W) (set_event : Conn → W → W) where
  -- `snprintf` writes the text and its NUL.
  unfoldable pub send_keepalive_echo_frame : Server W → Option (Server W)
  unfolding buf_remain put_frame htonll_bytes
  send_keepalive_echo_frame n =
      if ltb (buf_remain n.tcp_conn.send_zbuf) 28
      then some (record n { world = set_event n.tcp_conn n.world })
      else (put_frame n.tcp_conn.send_zbuf b'k' 24 (
            htonll_bytes n.now_time_sec
            ++ b'k' ∷ b'e' ∷ b'e' ∷ b'p' ∷ b'a' ∷ b'l' ∷ b'i' ∷ b'v' ∷ b'e' ∷ b' ' ∷ b'e' ∷ b'c'
              ∷ b'h' ∷ b'o' ∷ 0 ∷ [])
          >>= λ z. some (record n {
            tcp_conn = record n.tcp_conn { send_zbuf = z };
            world = set_event n.tcp_conn n.world;
          }))

  unfoldable pub server_handle_keepalive : Server W → Option (Server W)
  unfolding send_keepalive_echo_frame
  server_handle_keepalive n =
      send_keepalive_echo_frame (record n { keepalive_ts_sec = n.now_time_sec })

  unfoldable pub server_tcp_to_udp : List ℕ → Server W → Option (Server W)
  unfolding tcp_to_udp
  server_tcp_to_udp mem n = tcp_to_udp sendto set_event mem n.udp_conn n.world >>= λ (udp, w).
      some (record n { udp_conn = udp; world = w })

  -- `payload16_handle_callback`; after a fault nothing more happens.
  unfoldable pub server_callback : List ℕ → Option (Server W) → Option (Server W)
  unfolding payload16_type server_tcp_to_udp server_handle_keepalive
  server_callback mem s = s >>= λ n.
      if payload16_type mem == b'o'
      then server_tcp_to_udp mem n
      else if payload16_type mem == b'k'
      then server_handle_keepalive n
      else some n

  unfoldable pub server_handle_udp : Server W → Option (Server W)
  unfolding handle_udp
  server_handle_udp n =
      handle_udp sendto set_event n.udp_conn n.tcp_conn n.world >>= λ ((udp, tcp), w).
      some (record n { udp_conn = udp; tcp_conn = tcp; world = w })

  -- The end of `handle_tcp`, after `gnb_payload16_handle` returned.
  unfoldable pub server_after_handle : Ret → Server W → Server W
  unfolding zbuf_reset
  server_after_handle (error e) n = record n {
    tcp_conn = record n.tcp_conn { status = tcp_connect_finish };
  }
  server_after_handle handled n = record n {
    tcp_conn = record n.tcp_conn { recv_zbuf = zbuf_reset n.tcp_conn.recv_zbuf };
    keepalive_ts_sec = n.now_time_sec;
  }

  unfoldable pub server_handle_tcp : Ctx → Server W → Outcome (Option (Server W))
  unfolding payload16_handle server_callback server_after_handle buf_bytes
  server_handle_tcp c n =
      elim (payload16_handle server_callback (buf_bytes n.tcp_conn.recv_zbuf) c (some n)) [
        | returned r c' s ↦ returned r c' (s >>= λ n'. some (server_after_handle r n'))
        | fault ↦ fault
        | out_of_fuel ↦ out_of_fuel
      ]

  -- `service_recv_cb` for a connection of the given type with its channel.
  unfoldable pub server_recv_cb : FdType → Ctx → Server W → Outcome (Option (Server W))
  unfolding server_handle_udp server_handle_tcp
  server_recv_cb udp4_socket c n = returned handled c (server_handle_udp n)
  server_recv_cb tcpv4_connect c n = server_handle_tcp c n
  server_recv_cb udp6_socket c n = returned handled c (some n)
  server_recv_cb other_fd c n = returned handled c (some n)
