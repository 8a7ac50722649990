-- ===== src/Network.antt =====
-- src/gnb_network_service.c: what an event of a socket does to its connection. The system calls, the
-- event handler and the callbacks of the service are parameters. A callback may release the memory
-- of the connection, so that `conn` is `none` from then on. `none` as a result is a fault: an access
-- through NULL, to released memory or outside of a block. What the functions return only goes to the
-- log and is left out, and so are the calls that log.
pub mod Transfer
pub mod Dispatch
pub mod Accept
pub mod Receive
pub mod Partial
mod Tests
use gnb_udp_over_tcp.Prelude.{
  ℕ, zero, suc, ◌+◌, ◌*◌, ◌/◌, ◌%◌, Bool, true, false, ◌&&◌, ◌||◌, Option, none, some, List, [],
  ◌∷◌, ◌==◌, if◌then◌else◌, length, memcpy, ◌>>=◌,
}
use gnb_udp_over_tcp.Tunnel.{tcp_connect_finish, Zbuf, zbuf_alloc, buf_len, buf_remain, buf_bytes}
use gnb_udp_over_tcp.FixedPool.{Pool}
use gnb_udp_over_tcp.FixedPool
use gnb_udp_over_tcp.Address.{SockAddress}

-- `fd_type` of an event.
pub data EventFd : Type 0 where
  tcp4_listen : EventFd
  tcp6_listen : EventFd
  tcpv4_connect : EventFd
  tcpv6_connect : EventFd
  udp4_socket : EventFd
  udp6_socket : EventFd

-- The bits of `ev_type`.
abbrev pub type_read : ℕ
type_read = 1

abbrev pub type_write : ℕ
type_write = 2

abbrev pub type_eof : ℕ
type_eof = 8

abbrev pub type_error : ℕ
type_error = 16

abbrev pub type_finish : ℕ
type_finish = 32

-- `bit & ev_type` and `ev_type | bit`
abbrev pub has_bit : ℕ → ℕ → Bool
has_bit bit ev_type = (ev_type / bit) % 2 == 1

abbrev pub with_bit : ℕ → ℕ → ℕ
with_bit bit ev_type = if has_bit bit ev_type then ev_type else ev_type + bit

-- `address` is the block of the event in its pool, `uevent` whether the field is not NULL.
pub record Event : Type 0 where
  pub address : ℕ
  pub fd : ℕ
  pub fd_type : EventFd
  pub ev_type : ℕ
  pub uevent : Bool

-- `status` of a connection.
abbrev pub tcp_connect_init : ℕ
tcp_connect_init = 0

abbrev pub tcp_connect_success : ℕ
tcp_connect_success = 1

abbrev pub tcp_connect_wait : ℕ
tcp_connect_wait = 2

abbrev pub tcp_connect_fail : ℕ
tcp_connect_fail = 3

abbrev pub udp_channel_status : ℕ
udp_channel_status = 4

pub record Connection : Type 0 where
  pub fd : ℕ
  pub status : ℕ
  pub local_sockaddress : SockAddress
  pub remote_sockaddress : SockAddress
  pub listen_tcp_fd : ℕ
  pub recv_zbuf : Option Zbuf
  pub send_zbuf : Option Zbuf
  pub n_recv : ℕ
  pub n_send : ℕ
  pub n_recv_total : ℕ
  pub n_send_total : ℕ

-- An event with the connection that its `udata` leads to, the service's pool of events, and the
-- rest of the system.
pub record State (W : Type 0) : Type 0 where
  pub event : Event
  pub conn : Option Connection
  pub event_fixed_pool : Pool
  pub world : W

-- `errno`, as far as the code tells the values apart.
pub data Errno : Type 0 where
  eagain : Errno
  eintr : Errno
  enobufs : Errno
  econnreset : Errno
  enotconn : Errno
  enetdown : Errno
  other_errno : Errno

-- `recv` and `recvfrom`: bytes, or -1 with `errno`.
pub data Received : Type 0 where
  got : List ℕ → Received
  recv_failed : Errno → Received

-- `send` and `sendto`: the number of bytes, or -1 with `errno`.
pub data Sent : Type 0 where
  took : ℕ → Sent
  send_failed : Errno → Sent

abbrev pub with_event_bit : {W : Type 0} → ℕ → State W → State W
with_event_bit bit s = record s {
  event = record s.event { ev_type = with_bit bit s.event.ev_type };
}

module _ {W : Type 0} (close : ℕ → W → W) (del_event : Event → W → W) where
  unfoldable pub connection_close : State W → Option (State W)
  connection_close s = s.conn >>= λ conn.
      let event = record s.event { ev_type = type_finish } in
      let w = if event.uevent then del_event event s.world else s.world in
      some (record s {
        event = event;
        event_fixed_pool = (FixedPool.push s.event_fixed_pool (some event.address)).1;
        conn = some (record conn { status = tcp_connect_init });
        world = close conn.fd w;
      })

  unfoldable pub do_close : (close_cb : State W → Option (State W)) → State W → Option (State W)
  unfolding connection_close
  do_close close_cb s = connection_close s >>= close_cb

-- A callback of the service.
abbrev pub Callback : Type 0 → Type 0
Callback W = State W → Option (State W)
