-- ===== src/Tunnel/Tests.antt =====
-- The services on a system that takes every datagram, at concrete buffers.
use gnb_udp_over_tcp.Prelude.{
  ℕ, true, ◌≤◌, ◌<◌, ◌≡◌, ◌≢◌, ◌++◌, ◌⊎◌, refl, ap, Option, none, some, List, [], ◌∷◌, length,
  flatten, arith,
}
use gnb_udp_over_tcp.Payload.{Ctx, returned, handled, error}
use gnb_udp_over_tcp.Payload.Held.{Holds}
use gnb_udp_over_tcp.Payload.Handle.{handle_all}
use gnb_udp_over_tcp.Tunnel.{
  Zbuf, zbuf_reset, buf_len, buf_remain, buf_bytes, Conn, udp4_socket, tcpv4_connect, elapsed,
  handle_udp,
}
use gnb_udp_over_tcp.Tunnel.UdpSide.{Client, client_close_cb, client_handle_udp, client_idle_cb}
use gnb_udp_over_tcp.Tunnel.TcpSide.{Server, server_callback}
use gnb_udp_over_tcp.Tunnel.Enqueue.{InBlock, Enqueued, handle_udp-enqueues}
use gnb_udp_over_tcp.Tunnel.EndToEnd.{handle_each, handle_udp-arrives}
use gnb_udp_over_tcp.Tunnel.Relay.{IsReady, datagrams-arrive}
use gnb_udp_over_tcp.Tunnel.Keepalive.{KeepaliveSent}
use gnb_udp_over_tcp.Tunnel.Timers.{idle-drops, idle-keeps}
use gnb_udp_over_tcp.Tunnel.Faults.{handle_udp-overflow, close-handle_udp-fault, large-refused}

abbrev System : Type 0
System = List (ℕ × List ℕ)

abbrev deliver : ℕ → List ℕ → System → System
deliver remote bytes w = (remote, bytes) ∷ w

abbrev sendto : Conn → List ℕ → System → Option ℕ × System
sendto conn bytes w = (some (length bytes), deliver conn.remote bytes w)

abbrev set_event : Conn → System → System
set_event conn w = w

abbrev block : List ℕ
block = 1 ∷ 2 ∷ 3 ∷ 4 ∷ 5 ∷ 6 ∷ 7 ∷ 8 ∷ 9 ∷ 10 ∷ []

abbrev free : Zbuf
free = record { block = block; pos = 0; las = 0 }

-- Holds two bytes.
abbrev two_bytes : Zbuf
two_bytes = record { block = block; pos = 0; las = 2 }

-- Holds eight bytes, so that two are left.
abbrev tight : Zbuf
tight = record { block = block; pos = 0; las = 8 }

abbrev udp : Conn
udp = record {
  fd = 5;
  fd_type = udp4_socket;
  remote = 99;
  status = 0;
  has_zbufs = true;
  recv_zbuf = two_bytes;
  send_zbuf = free;
  n_send = 0;
  n_send_total = 0;
}

abbrev tcp : Conn
tcp = record udp { fd = 6; fd_type = tcpv4_connect; recv_zbuf = free }

abbrev full_tcp : Conn
full_tcp = record tcp { send_zbuf = tight }

two_bytes-InBlock : InBlock two_bytes
two_bytes-InBlock = record { pos_le = omega arith; las_le = omega arith }

free-InBlock : InBlock free
free-InBlock = record { pos_le = omega arith; las_le = omega arith }

tight-InBlock : InBlock tight
tight-InBlock = record { pos_le = omega arith; las_le = omega arith }

handle_udp-enqueues_example :
    (z : Zbuf) × (handle_udp sendto set_event udp tcp []
      ≡ some ((record udp { recv_zbuf = zbuf_reset two_bytes }, record tcp { send_zbuf = z }), []))
    × Enqueued free b'o' (buf_len two_bytes) (buf_bytes two_bytes) z
unfolding buf_len buf_remain
handle_udp-enqueues_example =
    handle_udp-enqueues sendto set_event udp tcp [] two_bytes-InBlock free-InBlock (omega arith)
      (omega arith)

handle_udp-overflow_example : handle_udp sendto set_event udp full_tcp [] ≡ none
unfolding buf_len buf_remain
handle_udp-overflow_example =
    handle_udp-overflow sendto set_event udp full_tcp [] two_bytes-InBlock tight-InBlock
      (omega arith) (omega arith)

abbrev ctx : Ctx
ctx = record { r_len = 0; buffer = 7 ∷ 7 ∷ []; payload = block; max_payload_size = 6 }

ctx-Holds : Holds ctx []
ctx-Holds = (refl, refl, refl)

abbrev server : Server System
server = record {
  tcp_conn = tcp;
  udp_conn = udp;
  keepalive_ts_sec = 0;
  now_time_sec = 7;
  world = [];
}

abbrev datagrams : List (ℕ × List ℕ)
datagrams = (0, 42 ∷ []) ∷ (0, 1 ∷ 2 ∷ []) ∷ []

-- The stream of the two frames, in three chunks.
abbrev chunks : List (List ℕ)
chunks = (0 ∷ []) ∷ (5 ∷ b'o' ∷ 0 ∷ 42 ∷ 0 ∷ 6 ∷ b'o' ∷ []) ∷ (0 ∷ 1 ∷ 2 ∷ []) ∷ []

datagrams-arrive_example :
    (c' : Ctx) × (udp' : Conn) × (handle_all
        (server_callback sendto set_event)
        chunks
        ctx
        (some server)
      ≡ returned handled c'
          (some (record server { udp_conn = udp'; world = (99, 1 ∷ 2 ∷ []) ∷ (99, 42 ∷ []) ∷ [] })))
    × Holds c' []
    × IsReady 99 10 udp'
unfolding flatten
datagrams-arrive_example =
    datagrams-arrive sendto set_event deliver (λ conn bytes w. refl) 6 10 ctx server datagrams
      chunks refl (omega arith) (omega arith) ctx-Holds (refl, refl, omega arith)
      (omega arith, (omega arith, tt)) refl

-- Holds one byte.
abbrev one_byte : Zbuf
one_byte = record { block = 42 ∷ []; pos = 0; las = 1 }

-- With room for the two frames.
abbrev wide_tcp : Conn
wide_tcp = record tcp { send_zbuf = record { block = 9 ∷ 9 ∷ block; pos = 0; las = 0 } }

-- A stream that arrives byte by byte.
abbrev bytes_apart : List ℕ → List (List ℕ)
bytes_apart [] = []
bytes_apart (x ∷ xs) = (x ∷ []) ∷ bytes_apart xs

flatten-bytes_apart : (xs : List ℕ) → flatten (bytes_apart xs) ≡ xs
unfolding flatten
flatten-bytes_apart [] = refl
flatten-bytes_apart (x ∷ xs) = ap (λ ys. x ∷ ys) (flatten-bytes_apart xs)

handle_udp-arrives_example :
    (udp' tcp' : Conn) × (w' : System) × (c' : Ctx) × (peer : Conn) × (handle_each sendto set_event
        (one_byte ∷ two_bytes ∷ [])
        ((udp, wide_tcp), [])
      ≡ some ((udp', tcp'), w'))
    × (handle_all
          (server_callback sendto set_event)
          (bytes_apart (buf_bytes tcp'.send_zbuf))
          ctx
          (some server)
        ≡ returned handled c' (
            some
              (record server { udp_conn = peer; world = (99, 1 ∷ 2 ∷ []) ∷ (99, 42 ∷ []) ∷ [] })))
    × Holds c' []
unfolding buf_bytes buf_len buf_remain
handle_udp-arrives_example =
    handle_udp-arrives sendto set_event deliver (λ conn bytes w. refl) sendto set_event 6 10
      (one_byte ∷ two_bytes ∷ []) udp wide_tcp [] ctx server bytes_apart flatten-bytes_apart
      (
        record { pos_le = omega arith; las_le = omega arith },
        omega arith,
        (two_bytes-InBlock, omega arith, tt),
      )
      (record { pos_le = omega arith; las_le = omega arith }) refl (omega arith) refl (omega arith)
      (omega arith) ctx-Holds (refl, refl, omega arith)

large-refused_example :
    (c' : Ctx) × (handle_all
        (server_callback sendto set_event)
        ((0 ∷ 7 ∷ []) ∷ (b'o' ∷ 0 ∷ 1 ∷ 2 ∷ 3 ∷ 8 ∷ []) ∷ [])
        ctx
        (some server)
      ≡ returned (error 3) c' (some server))
unfolding flatten
large-refused_example =
    large-refused sendto set_event 6 0 ctx server (1 ∷ 2 ∷ 3 ∷ []) (8 ∷ [])
      ((0 ∷ 7 ∷ []) ∷ (b'o' ∷ 0 ∷ 1 ∷ 2 ∷ 3 ∷ 8 ∷ []) ∷ []) refl ctx-Holds (omega arith)
      (omega arith) refl

abbrev client : Client System
client = record {
  tcp_conn = some tcp;
  udp_conn = udp;
  last_reconnect_time_sec = 10;
  keepalive_ts_sec = 10;
  last_send_keepalive_ts_sec = 20;
  now_time_sec = 30;
  world = [];
}

abbrev close : Conn → System → System
close conn w = w

close-handle_udp-fault_example :
    (n' : Client System) × (client_close_cb sendto set_event close client ≡ some n')
    × (client_handle_udp sendto set_event n' ≡ none)
close-handle_udp-fault_example = close-handle_udp-fault sendto set_event close tcp client refl

idle-drops_example :
    (n₁ : Client System) × (client_idle_cb sendto set_event tcp close client ≡ some n₁)
    × ((n₁.tcp_conn ≡ none)
        ⊎ ((n₂ : Client System) × (client_idle_cb sendto set_event tcp close n₁ ≡ some n₂)
            × (n₂.tcp_conn ≡ none)))
unfolding elapsed
idle-drops_example =
    idle-drops sendto set_event tcp close tcp client refl refl free-InBlock (omega arith)

abbrev heard : Client System
heard = record client { keepalive_ts_sec = 28 }

-- With room for a keepalive frame.
abbrev roomy_tcp : Conn
roomy_tcp = record tcp { send_zbuf = record { block = block ++ block ++ block; pos = 0; las = 0 } }

abbrev heard_by : Client System
heard_by = record heard { tcp_conn = some roomy_tcp }

idle-keeps_example :
    (n' : Client System) × (client_idle_cb sendto set_event tcp close heard_by ≡ some n')
    × (n'.tcp_conn ≢ none)
    × (n'.keepalive_ts_sec ≡ 28)
    × (((elapsed 30 20 ≤ 3) × (n' ≡ heard_by))
        ⊎ ((3 < elapsed 30 20)
            × (n₁ : Client System) × KeepaliveSent sendto set_event roomy_tcp heard_by n₁
            × (n' ≡ record n₁ { last_send_keepalive_ts_sec = 30 })))
unfolding elapsed
idle-keeps_example =
    idle-keeps sendto set_event tcp close roomy_tcp heard_by refl refl
      (record { pos_le = omega arith; las_le = omega arith }) (omega arith)
