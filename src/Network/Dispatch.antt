-- ===== src/Network/Dispatch.antt =====
-- What an event leads to in src/gnb_network_service.c: `handle_tcp_event`, `handle_udp_event` and the loop's choice.
use gnb_udp_over_tcp.Prelude.{ℕ, Bool, true, false, ◌&&◌, Option, some, ◌==◌, if◌then◌else◌, ◌>>=◌}
use gnb_udp_over_tcp.Tunnel.{tcp_connect_finish}
use gnb_udp_over_tcp.Network.{
  EventFd, type_read, type_write, type_eof, type_error, type_finish, has_bit, tcp_connect_success,
  tcp_connect_wait, Connection, State, Callback, tcp4_listen, tcp6_listen, tcpv4_connect,
  tcpv6_connect, udp4_socket, udp6_socket,
}

-- `if ( bit & event->ev_type ) handle(service, event);`
abbrev pub on_bit : {W : Type 0} → ℕ → Callback W → Callback W
on_bit bit handle s = if has_bit bit s.event.ev_type then handle s else some s

unfoldable pub handle_udp_event : {W : Type 0} → (do_udp_send do_udp_recv : Callback W) → Callback W
handle_udp_event do_udp_send do_udp_recv s =
    if s.event.ev_type == type_finish
    then some s
    else (on_bit type_write do_udp_send s >>= on_bit type_read do_udp_recv)

abbrev pub is_listen : EventFd → Bool
is_listen tcp4_listen = true
is_listen tcp6_listen = true
is_listen tcpv4_connect = false
is_listen tcpv6_connect = false
is_listen udp4_socket = false
is_listen udp6_socket = false

abbrev pub is_connect : EventFd → Bool
is_connect tcpv4_connect = true
is_connect tcpv6_connect = true
is_connect tcp4_listen = false
is_connect tcp6_listen = false
is_connect udp4_socket = false
is_connect udp6_socket = false

abbrev pub is_udp : EventFd → Bool
is_udp udp4_socket = true
is_udp udp6_socket = true
is_udp tcp4_listen = false
is_udp tcp6_listen = false
is_udp tcpv4_connect = false
is_udp tcpv6_connect = false

module _ {W : Type 0} (do_accept do_connect do_send do_recv do_close : Callback W) where
  -- From the label `finish` on.
  unfoldable pub tcp_event_finish : State W → Option (State W)
  tcp_event_finish s =
      s.conn >>= λ conn. if conn.status == tcp_connect_finish then do_close s else some s

  unfoldable pub close_or_finish : State W → Option (State W)
  unfolding tcp_event_finish
  close_or_finish s =
      if has_bit type_eof s.event.ev_type
      then do_close s
      else (if has_bit type_error s.event.ev_type then do_close s else tcp_event_finish s)

  unfoldable pub connected_event : Connection → State W → Option (State W)
  unfolding tcp_event_finish close_or_finish
  connected_event conn s =
      if is_connect s.event.fd_type && (conn.status == tcp_connect_wait)
      then (do_connect (record s { conn = some (record conn { status = tcp_connect_success }) })
          >>= tcp_event_finish)
      else (on_bit type_write do_send s >>= λ s₁. on_bit type_read do_recv s₁ >>= close_or_finish)

  unfoldable pub handle_tcp_event : State W → Option (State W)
  unfolding connected_event tcp_event_finish
  handle_tcp_event s =
      if s.event.ev_type == type_finish
      then some s
      else (if is_listen s.event.fd_type
          then (do_accept s >>= tcp_event_finish)
          else (s.conn >>= λ conn. connected_event conn s))

-- One event of the loop.
unfoldable pub handle_event : {W : Type 0} → (handle_udp handle_tcp : Callback W) → Callback W
handle_event handle_udp handle_tcp s = if is_udp s.event.fd_type then handle_udp s else handle_tcp s
