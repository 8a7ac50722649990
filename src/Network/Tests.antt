-- ===== src/Network/Tests.antt =====
-- A connection with three bytes to send and an empty receive buffer.
use gnb_udp_over_tcp.Prelude.{ℕ, ◌≡◌, refl, true, some, List, [], ◌∷◌, arith}
use gnb_udp_over_tcp.Tunnel.{Zbuf, buf_bytes, buf_len}
use gnb_udp_over_tcp.Network.{
  Event, tcpv4_connect, Connection, State, Callback, Sent, took, Received, got, tcp_connect_success,
  type_read,
}
use gnb_udp_over_tcp.Network.Transfer.{do_send, do_recv}
use gnb_udp_over_tcp.Network.Accept.{connection_create}
use gnb_udp_over_tcp.Network.Receive.{do_recv-delivers}
use gnb_udp_over_tcp.Network.Partial.{service_send_cb, do_send-drops}

abbrev to_send : Zbuf
to_send = record { block = 7 ∷ 8 ∷ 9 ∷ 0 ∷ []; pos = 0; las = 3 }

abbrev to_fill : Zbuf
to_fill = record { block = 0 ∷ 0 ∷ 0 ∷ 0 ∷ []; pos = 0; las = 0 }

abbrev conn : Connection
conn = record connection_create {
  fd = 5;
  status = tcp_connect_success;
  recv_zbuf = some to_fill;
  send_zbuf = some to_send;
}

abbrev state : State (List ℕ)
state = record {
  event = record {
    address = 100;
    fd = 5;
    fd_type = tcpv4_connect;
    ev_type = type_read;
    uevent = true;
  };
  conn = some conn;
  event_fixed_pool = record {
    num = 0;
    bsize = 0;
    block = 0;
    block_len = 0;
    array_len = 0;
    array = [];
  };
  world = 1 ∷ 2 ∷ [];
}

-- The system takes one byte.
abbrev one_byte : ℕ → List ℕ → List ℕ → Sent × List ℕ
one_byte fd bytes w = (took 1, w)

abbrev same_world : Event → List ℕ → List ℕ
same_world e w = w

-- Two of the three bytes are gone.
do_send-drops_example :
    (conn' : Connection) × (z' : Zbuf) × (do_send one_byte same_world service_send_cb state
      ≡ some (record state { conn = some conn' }))
    × (conn'.send_zbuf ≡ some z')
    × (buf_bytes z' ≡ [])
    × (conn'.n_send_total ≡ 1)
unfolding connection_create buf_len
do_send-drops_example =
    do_send-drops one_byte same_world state conn to_send refl refl (omega arith) 1 (1 ∷ 2 ∷ []) refl

abbrev two_bytes : ℕ → ℕ → List ℕ → Received × List ℕ
two_bytes fd room w = (got w, [])

abbrev keep : Callback (List ℕ)
keep s = some s

do_recv-delivers_example :
    (conn' : Connection) × (z' : Zbuf) × (do_recv two_bytes keep state
      ≡ some (record state { conn = some conn'; world = [] }))
    × (conn'.recv_zbuf ≡ some z')
    × (buf_bytes z' ≡ 1 ∷ 2 ∷ [])
    × (conn'.n_recv_total ≡ 2)
    × (conn'.send_zbuf ≡ some to_send)
    × (conn'.status ≡ tcp_connect_success)
unfolding connection_create
do_recv-delivers_example =
    do_recv-delivers two_bytes keep state conn to_fill refl refl 1 (2 ∷ []) [] refl (omega arith)
      (omega arith) refl
