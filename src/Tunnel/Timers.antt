-- ===== src/Tunnel/Timers.antt =====
-- `service_idle_cb` of src/service/uot_udp_service.c: keepalive frames, the timeout and the reconnection.
use gnb_udp_over_tcp.Prelude.{
  ◌>>=◌, ℕ, ◌≤◌, ◌<◌, ◌≡◌, ◌≢◌, refl, ap, ◌∙◌, true, false, Option, none, some, List, ltb, arith,
  ◌⊎◌, inl, inr, Bool-cases,
}
use gnb_udp_over_tcp.Tunnel.{Conn, elapsed}
use gnb_udp_over_tcp.Tunnel.UdpSide.{
  Client, send_keepalive_interval_sec, send_keepalive_frame, check_timeout, client_idle_cb,
}
use gnb_udp_over_tcp.Tunnel.Enqueue.{InBlock}
use gnb_udp_over_tcp.Tunnel.Keepalive.{KeepaliveSent, send_keepalive_frame-lem}

elapsed_now : (now : ℕ) → elapsed now now ≡ 0
unfolding elapsed
elapsed_now now = omega arith

module _ {W : Type 0} (sendto : Conn → List ℕ → W → Option ℕ × W) (set_event : Conn → W → W) where
  module _ (fresh : Conn) (close : Conn → W → W) where
    abbrev after_keepalive : Client W → Option (Client W) → Option (Client W)
    after_keepalive n o =
        o >>= λ n'. some (record n' { last_send_keepalive_ts_sec = n.now_time_sec })

    idle-keepalive :
        (tcp : Conn) (n n' : Client W)
        → n.tcp_conn ≡ some tcp
        → ltb send_keepalive_interval_sec (elapsed n.now_time_sec n.last_send_keepalive_ts_sec)
          ≡ true
        → send_keepalive_frame sendto set_event tcp n ≡ some n'
        → client_idle_cb sendto set_event fresh close n
          ≡ some (record n' { last_send_keepalive_ts_sec = n.now_time_sec })
    unfolding client_idle_cb
    idle-keepalive tcp n n' here due e =
        let opened : client_idle_cb sendto set_event fresh close n
            ≡ after_keepalive n (send_keepalive_frame sendto set_event tcp n) =
          rw (here, due) refl in
        opened ∙ ap (after_keepalive n) e

    -- Without buffers, as while the connection is not made, a keepalive frame that is due reads NULL.
    idle-waiting-fault :
        (tcp : Conn) (n : Client W)
        → n.tcp_conn ≡ some tcp
        → tcp.has_zbufs ≡ false
        → ltb send_keepalive_interval_sec (elapsed n.now_time_sec n.last_send_keepalive_ts_sec)
          ≡ true
        → client_idle_cb sendto set_event fresh close n ≡ none
    unfolding client_idle_cb send_keepalive_frame
    idle-waiting-fault tcp n here missing due = rw (here, due) (rw missing refl)

    idle-check_timeout :
        (tcp : Conn) (n : Client W)
        → n.tcp_conn ≡ some tcp
        → ltb send_keepalive_interval_sec (elapsed n.now_time_sec n.last_send_keepalive_ts_sec)
          ≡ false
        → client_idle_cb sendto set_event fresh close n
          ≡ some (check_timeout sendto set_event close tcp n)
    unfolding client_idle_cb
    idle-check_timeout tcp n here early = rw (here, early) refl

    timed_out :
        (tcp : Conn) (n : Client W)
        → 15 < elapsed n.now_time_sec n.keepalive_ts_sec
        → (check_timeout sendto set_event close tcp n).tcp_conn ≡ none
    unfolding check_timeout
    timed_out tcp n late =
        let test : ltb 15 (elapsed n.now_time_sec n.keepalive_ts_sec) ≡ true = ground arith in
        rw test refl

    not_timed_out :
        (tcp : Conn) (n : Client W)
        → elapsed n.now_time_sec n.keepalive_ts_sec ≤ 15
        → check_timeout sendto set_event close tcp n ≡ n
    unfolding check_timeout
    not_timed_out tcp n fine =
        let test : ltb 15 (elapsed n.now_time_sec n.keepalive_ts_sec) ≡ false = ground arith in
        rw test refl

    -- For a client with a TCP connection that has its buffers, a send buffer with its pointers in
    -- order within its block, and more than 15 seconds since the last sign of life:
    -- service_idle_cb returns, and the connection is gone after it or, where a keepalive frame was
    -- due first, after the next call at the same time.
    pub idle-drops :
        (tcp : Conn) (n : Client W)
        → n.tcp_conn ≡ some tcp
        → tcp.has_zbufs ≡ true
        → InBlock tcp.send_zbuf
        → 15 < elapsed n.now_time_sec n.keepalive_ts_sec
        → (n₁ : Client W) × (client_idle_cb sendto set_event fresh close n ≡ some n₁)
          × ((n₁.tcp_conn ≡ none)
              ⊎ ((n₂ : Client W) × (client_idle_cb sendto set_event fresh close n₁ ≡ some n₂)
                  × (n₂.tcp_conn ≡ none)))
    idle-drops tcp n here there i late =
        elim (Bool-cases (ltb 3 (elapsed n.now_time_sec n.last_send_keepalive_ts_sec))) [
          | inr early ↦ (_, idle-check_timeout tcp n here early, inl (timed_out tcp n late))
          | inl due ↦
              let (n', e, (tcp', here', now, heard), put) =
                send_keepalive_frame-lem sendto set_event tcp n here there i in
              let n₁ : Client W = record n' { last_send_keepalive_ts_sec = n.now_time_sec } in
              let zero_elapsed : elapsed n₁.now_time_sec n₁.last_send_keepalive_ts_sec ≡ 0 =
                ap (λ t. elapsed t n.now_time_sec) now ∙ elapsed_now n.now_time_sec in
              let early : ltb 3 (elapsed n₁.now_time_sec n₁.last_send_keepalive_ts_sec) ≡ false =
                rw zero_elapsed refl in
              let late' : 15 < elapsed n₁.now_time_sec n₁.keepalive_ts_sec = rw (now, heard) late in
              (
                n₁,
                idle-keepalive tcp n n' here due e,
                inr (_, idle-check_timeout tcp' n₁ here' early, timed_out tcp' n₁ late'),
              )
        ]

    -- For a client with a TCP connection that has its buffers, a send buffer with its pointers in
    -- order within its block, and at most 15 seconds since the last sign of life: service_idle_cb
    -- returns and keeps the connection and the time of the sign of life. Where the last attempt to
    -- send a keepalive frame is at most 3 seconds old, nothing changes. Where it is older, its
    -- time becomes now and the write event is enabled; where 28 bytes are free in the send buffer,
    -- a frame of type 'k' with 24 bytes of data, which begin with the time and the text
    -- "keepalive", stands behind its bytes, and where they are not, the buffer stays.
    pub idle-keeps :
        (tcp : Conn) (n : Client W)
        → n.tcp_conn ≡ some tcp
        → tcp.has_zbufs ≡ true
        → InBlock tcp.send_zbuf
        → elapsed n.now_time_sec n.keepalive_ts_sec ≤ 15
        → (n' : Client W) × (client_idle_cb sendto set_event fresh close n ≡ some n')
          × (n'.tcp_conn ≢ none)
          × (n'.keepalive_ts_sec ≡ n.keepalive_ts_sec)
          × (((elapsed n.now_time_sec n.last_send_keepalive_ts_sec ≤ 3) × (n' ≡ n))
              ⊎ ((3 < elapsed n.now_time_sec n.last_send_keepalive_ts_sec)
                  × (n₁ : Client W) × KeepaliveSent sendto set_event tcp n n₁
                  × (n' ≡ record n₁ { last_send_keepalive_ts_sec = n.now_time_sec })))
    idle-keeps tcp n here there i fine =
        elim (Bool-cases (ltb 3 (elapsed n.now_time_sec n.last_send_keepalive_ts_sec))) [
          | inr early ↦ (
            n,
            idle-check_timeout tcp n here early ∙ ap some (not_timed_out tcp n fine),
            (λ gone. ground (arith, here, gone)),
            refl,
            inl (ground arith, refl),
          )
          | inl due ↦
              let (n', e, (tcp', here', now, heard), put) =
                send_keepalive_frame-lem sendto set_event tcp n here there i in
              (
                record n' { last_send_keepalive_ts_sec = n.now_time_sec },
                idle-keepalive tcp n n' here due e,
                (λ gone. ground (arith, here', gone)),
                heard,
                inr (ground arith, n', put, refl),
              )
        ]
