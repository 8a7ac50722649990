-- ===== src/Network/Partial.antt =====
-- `do_send` of src/gnb_network_service.c with the callback of the two services under src/service/.
use gnb_udp_over_tcp.Prelude.{
  ℕ, ◌+◌, ◌%◌, ◌^◌, ◌≡◌, ◌<◌, refl, ap, ◌∙◌, Bool, false, Option, none, some, List, [], ◌==◌,
  if◌then◌else◌, arith, ◌>>=◌,
}
use gnb_udp_over_tcp.Tunnel.{Zbuf, zbuf_reset, buf_bytes, buf_len}
use gnb_udp_over_tcp.Network.{Event, Connection, State, Callback, Sent, took, send_failed, Errno}
use gnb_udp_over_tcp.Network.Transfer.{
  count_sent, send_finish, after_tcp_send, do_send, send_error_bit,
}

-- `service_send_cb` of both services.
unfoldable pub service_send_cb : {W : Type 0} → Callback W
unfolding zbuf_reset
service_send_cb s = s.conn >>= λ conn. conn.send_zbuf >>= λ z.
    some (record s { conn = some (record conn { send_zbuf = some (zbuf_reset z) }) })

module _ {W : Type 0} (send : ℕ → List ℕ → W → Sent × W) (disable_write : Event → W → W)
    (s : State W) (conn : Connection) (z : Zbuf) (here : s.conn ≡ some conn)
    (buffer : conn.send_zbuf ≡ some z) (busy : 0 < buf_len z) where
  by_answer :
      (r : Sent) (w : W)
      → send conn.fd (buf_bytes z) s.world ≡ (r, w)
      → do_send send disable_write service_send_cb s
        ≡ after_tcp_send send disable_write service_send_cb conn z r (record s { world = w })
  unfolding do_send buf_len
  by_answer r w e =
      let test : (buf_len z == 0) ≡ false = ground (arith, busy) in
      let go = λ (c : Connection) (z : Zbuf).
        let r = send c.fd (buf_bytes z) s.world in
        if buf_len z == 0
        then send_finish send disable_write service_send_cb s
        else after_tcp_send send disable_write service_send_cb c z r.0 (record s { world = r.1 }) in
      ap (λ (o : Option Connection). o >>= λ c. c.send_zbuf >>= go c) here
      ∙ ap (λ (o : Option Zbuf). o >>= go conn) buffer
      ∙ ap
          (λ (a : Bool × (Sent × W)).
            if a.0
            then send_finish send disable_write service_send_cb s
            else after_tcp_send send disable_write service_send_cb conn z a.1.0
                (record s { world = a.1.1 }))
          (λ i. (test i, e i))

  -- For a connection with bytes in its send buffer, and the send callback of the services: when
  -- send takes n of them, do_send returns, n_send_total grows by n modulo 2 ^ 64 and the send
  -- buffer is empty, whether or not n is the number of the bytes.
  pub do_send-drops :
      (n : ℕ) (w : W)
      → send conn.fd (buf_bytes z) s.world ≡ (took n, w)
      → (conn' : Connection) × (z' : Zbuf) × (do_send send disable_write service_send_cb s
          ≡ some (record s { conn = some conn'; world = disable_write s.event w }))
        × (conn'.send_zbuf ≡ some z')
        × (buf_bytes z' ≡ [])
        × (conn'.n_send_total ≡ (conn.n_send_total + n) % 2 ^ 64)
  unfolding after_tcp_send send_finish count_sent service_send_cb zbuf_reset buf_bytes buf_len
  do_send-drops n w sends = (
    record conn {
      send_zbuf = some (zbuf_reset z);
      n_send = n;
      n_send_total = (conn.n_send_total + n) % 2 ^ 64;
    },
    zbuf_reset z,
    by_answer (took n) w sends,
    refl,
    refl,
    refl,
  )

  -- Errors after which the call may be repeated: the connection stays.
  pub do_send-keeps :
      (e : Errno) (w : W)
      → send conn.fd (buf_bytes z) s.world ≡ (send_failed e, w)
      → send_error_bit e ≡ none
      → do_send send disable_write service_send_cb s ≡ some (record s { world = w })
  unfolding after_tcp_send
  do_send-keeps e w sends again =
      by_answer (send_failed e) w sends ∙ rw (after_tcp_send, again) refl
