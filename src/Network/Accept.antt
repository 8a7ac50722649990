-- ===== src/Network/Accept.antt =====
-- New sockets in src/gnb_network_service.c: accepted and opened connections, and the events of the
-- sockets that are there at the start of the loop. A new connection is a state of its own, which
-- shares the pool and the rest of the system.
use gnb_udp_over_tcp.Prelude.{
  ℕ, Bool, true, false, Option, none, some, List, [], ◌==◌, if◌then◌else◌, ◌>>=◌,
}
use gnb_udp_over_tcp.Tunnel.{zbuf_alloc}
use gnb_udp_over_tcp.FixedPool.{Pool}
use gnb_udp_over_tcp.FixedPool
use gnb_udp_over_tcp.Address.{SockAddr, SockAddress, af_inet, af_inet6, sock_stream, sock_dgram}
use gnb_udp_over_tcp.Network.{
  EventFd, tcp4_listen, tcp6_listen, tcpv4_connect, tcpv6_connect, udp4_socket, udp6_socket, Event,
  Connection, State, Callback, tcp_connect_init, tcp_connect_success, tcp_connect_wait,
  tcp_connect_fail, udp_channel_status, type_read,
}
use gnb_udp_over_tcp.Network.Dispatch.{is_connect}

abbrev pub zero_sockaddress : SockAddress
zero_sockaddress = record {
  addr_type = 0;
  protocol = 0;
  addr = record { sin_port = 0; sin_addr = [] };
  socklen = 0;
}

-- `memset` after the allocation.
unfoldable pub connection_create : Connection
connection_create = record {
  fd = 0;
  status = tcp_connect_init;
  local_sockaddress = zero_sockaddress;
  remote_sockaddress = zero_sockaddress;
  listen_tcp_fd = 0;
  recv_zbuf = none;
  send_zbuf = none;
  n_recv = 0;
  n_send = 0;
  n_recv_total = 0;
  n_send_total = 0;
}

-- `gnb_fixed_pool_pop` and the fields that are written; NULL is written through. The other fields
-- are what the pool's memory holds.
unfoldable pub new_event : (ℕ → Event) → Pool → ℕ → EventFd → Option (Event × Pool)
new_event events pool fd fd_type =
    let r = FixedPool.pop pool in
    r.0 >>= λ p. some (record (events p) { address = p; fd = fd; fd_type = fd_type }, r.1)

-- `junk` are the bytes of a fresh buffer of the size of the service.
module _ {W : Type 0} (events : ℕ → Event) (recv_junk send_junk : List ℕ)
    (add_event : Event → ℕ → W → W) where
  unfoldable pub alloc_bufs : Connection → Connection
  unfolding zbuf_alloc
  alloc_bufs conn = record conn {
    recv_zbuf = some (zbuf_alloc recv_junk);
    send_zbuf = some (zbuf_alloc send_junk);
  }

  -- The address of the peer has the family of the listening socket, the event always the type of
  -- IPv4.
  unfoldable pub accepted : EventFd → Connection → ℕ → ℕ → SockAddr → Connection
  unfolding connection_create alloc_bufs
  accepted listen_type listen_conn listen_fd fd peer = alloc_bufs (record connection_create {
    fd = fd;
    status = tcp_connect_success;
    remote_sockaddress = record {
      addr_type = elim listen_type [
        | tcp6_listen ↦ af_inet6
        | tcp4_listen ↦ af_inet
        | tcpv4_connect ↦ af_inet
        | tcpv6_connect ↦ af_inet
        | udp4_socket ↦ af_inet
        | udp6_socket ↦ af_inet
      ];
      protocol = sock_stream;
      addr = peer;
      socklen = elim listen_type [
        | tcp6_listen ↦ 28
        | tcp4_listen ↦ 16
        | tcpv4_connect ↦ 16
        | tcpv6_connect ↦ 16
        | udp4_socket ↦ 16
        | udp6_socket ↦ 16
      ];
    };
    listen_tcp_fd = listen_fd;
    local_sockaddress = listen_conn.local_sockaddress;
  })

  -- `accept` gives a descriptor with the address of the peer, or -1. `accept_cb` gives its result and
  -- the new connection after it. The new connection, if there is one, and the listening one.
  unfoldable pub do_accept :
      (accept : ℕ → W → Option (ℕ × SockAddr) × W)
      → (accept_cb : State W → Option (ℕ × State W)) → State W
      → Option (Option (State W) × State W)
  unfolding accepted new_event
  do_accept accept accept_cb s =
      let r = accept s.event.fd s.world in
      elim r.0 [
        | none ↦ some (none, record s { world = r.1 })
        | some (fd, peer) ↦ do
          e ← new_event events s.event_fixed_pool fd tcpv4_connect
          listen_conn ← s.conn
          let conn = accepted s.event.fd_type listen_conn s.event.fd fd peer
          done ←
              accept_cb
                (record { event = e.0; conn = some conn; event_fixed_pool = e.1; world = r.1 })
          let new = done.1
          let w = if done.0 == 0 then add_event new.event type_read new.world else new.world
          some (
            some (record new { world = w }),
            record s { event_fixed_pool = new.event_fixed_pool; world = w },
          )
      ]

  -- `getpeername` tells whether the connection was made.
  unfoldable pub do_connect :
      (getpeername : ℕ → W → Bool)
      → (disable_write : Event → W → W) → (connect_cb : Option (Callback W))
      → (do_close : Callback W) → State W
      → Option (State W)
  unfolding alloc_bufs
  do_connect getpeername disable_write connect_cb do_close s =
      if is_connect s.event.fd_type
      then (if getpeername s.event.fd s.world
          then elim connect_cb [
            | none ↦ do_close s
            | some cb ↦ s.conn >>= λ conn.
                cb (record s {
                  conn = some (alloc_bufs conn);
                  world = disable_write s.event s.world;
                })
          ]
          else do_close s)
      else do_close s

  -- The type of the event of a socket that the program opens. For another family the field stays.
  abbrev pub family_fd : EventFd → EventFd → EventFd → ℕ → EventFd
  family_fd v4 v6 before family =
      if family == af_inet6 then v6 else (if family == af_inet then v4 else before)

  -- From the label `setup_event` on.
  unfoldable pub setup_event : EventFd → EventFd → ℕ → Connection → Pool → W → Option (State W)
  unfolding new_event
  setup_event v4 v6 ev_type conn pool w =
      let before : EventFd = elim (FixedPool.pop pool).0 [
        | none ↦ v4
        | some p ↦ (events p).fd_type
      ] in
      new_event events pool conn.fd (family_fd v4 v6 before conn.remote_sockaddress.addr_type)
      >>= λ e. some (record {
        event = e.0;
        conn = some conn;
        event_fixed_pool = e.1;
        world = add_event e.0 ev_type w;
      })

  -- `socket` gives -1 as `none`; `connect` gives `none` for EINPROGRESS, and else whether it
  -- succeeded. On a failure the connection is given back with the status.
  module _ (socket : ℕ → ℕ → W → Option ℕ × W) (connect : ℕ → SockAddress → W → Option Bool × W)
      (close : ℕ → W → W) where
    unfoldable pub connect_result :
        Connection → Pool → Option Bool → W → Option (Option (State W) × Connection)
    unfolding setup_event alloc_bufs
    connect_result conn pool none w =
        let conn' = record conn { status = tcp_connect_wait } in
        setup_event tcpv4_connect tcpv6_connect 3 conn' pool w >>= λ s. some (some s, conn')
    connect_result conn pool (some true) w =
        let conn' = alloc_bufs (record conn { status = tcp_connect_success }) in
        setup_event tcpv4_connect tcpv6_connect 3 conn' pool w >>= λ s. some (some s, conn')
    connect_result conn pool (some false) w = some (none, record conn { status = tcp_connect_fail })

    -- The event with its connection, and the connection.
    unfoldable pub service_connect : Connection → Pool → W → Option (Option (State W) × Connection)
    unfolding connect_result
    service_connect conn pool w =
        let r = socket conn.remote_sockaddress.addr_type sock_stream w in
        elim r.0 [
          | none ↦ some (none, conn)
          | some fd ↦
              let c = connect fd conn.remote_sockaddress r.1 in
              connect_result (record conn { fd = fd }) pool c.0
                (elim c.0 [ none ↦ c.1 | some ok ↦ if ok then c.1 else close fd c.1 ])
        ]

    unfoldable pub udp_channel : Connection → Pool → W → Option (Option (State W))
    unfolding setup_event alloc_bufs
    udp_channel conn pool w =
        let r = socket conn.remote_sockaddress.addr_type sock_dgram w in
        elim r.0 [
          | none ↦ some none
          | some fd ↦
              setup_event udp4_socket udp6_socket type_read
                (alloc_bufs (record conn { fd = fd; status = udp_channel_status })) pool r.1
              >>= λ s. some (some s)
        ]

  -- The start of the loop for a socket of the service: `memset` clears the event.
  unfoldable pub start_event : EventFd → Connection → Pool → W → Option (State W)
  start_event fd_type conn pool w =
      let r = FixedPool.pop pool in
      r.0 >>= λ p.
      let e : Event = record {
        address = p;
        fd = conn.fd;
        fd_type = fd_type;
        ev_type = 0;
        uevent = false;
      } in
      some (record {
        event = e;
        conn = some conn;
        event_fixed_pool = r.1;
        world = add_event e type_read w;
      })

  -- A socket of another protocol gets no event.
  unfoldable pub start_conn : Connection → Pool → W → Option (Option (State W))
  unfolding start_event alloc_bufs
  start_conn conn pool w =
      let v6 = conn.local_sockaddress.addr_type == af_inet6 in
      if conn.local_sockaddress.protocol == sock_stream
      then (start_event (if v6 then tcp6_listen else tcp4_listen) conn pool w >>= λ s.
          some (some s))
      else (if conn.local_sockaddress.protocol == sock_dgram
          then (start_event (if v6 then udp6_socket else udp4_socket) (alloc_bufs conn) pool w
              >>= λ s. some (some s))
          else some none)
