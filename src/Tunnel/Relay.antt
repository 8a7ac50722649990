-- ===== src/Tunnel/Relay.antt =====
-- `tcp_to_udp` and the callback of src/service/uot_tcp_service.c: the frames of a TCP stream go out as
-- datagrams.
use gnb_udp_over_tcp.Prelude.{
  ◌>>=◌, ℕ, ◌+◌, ◌-◌, ◌/◌, ◌%◌, ◌≤◌, ◌<◌, ◌≡◌, refl, ap, ◌∙◌, sym, false, Option, none, some, List,
  [], ◌∷◌, ◌++◌, ltb, ◌==◌, if◌then◌else◌, length, length-append, length-drop, take, drop,
  take-append, memcpy, memcpy-append, ntohs, ntohs-cons, ntohs-lt, append-nil, arith, flatten,
  foldl, Bool-cases, inl, inr,
}
use gnb_udp_over_tcp.Payload.{
  Ctx, returned, handled, payload16_size, payload16_data_len, payload16_type,
}
use gnb_udp_over_tcp.Payload.Held.{Holds, ReadsFrame}
use gnb_udp_over_tcp.Payload.Handle.{handle_all}
use gnb_udp_over_tcp.Payload.Chunks.{AllFrames, frames-arrive}
use gnb_udp_over_tcp.Tunnel.{
  Zbuf, zbuf_reset, buf_len, buf_remain, buf_bytes, Conn, udp4_socket, udp6_socket, tcpv4_connect,
  other_fd, tcp_to_udp, udp_send, after_send, sent,
}
use gnb_udp_over_tcp.Tunnel.TcpSide.{
  Server, server_callback, server_tcp_to_udp, server_handle_keepalive,
}
use gnb_udp_over_tcp.Tunnel.Enqueue.{frame}

-- A UDP connection to `remote` with room for `room` bytes.
abbrev pub IsReady : ℕ → ℕ → Conn → Type 0
IsReady remote room udp =
    (udp.fd_type ≡ udp4_socket) × (udp.remote ≡ remote) × (room ≤ length udp.send_zbuf.block)

payload16_size_lem : (a b : ℕ) (p : List ℕ) → payload16_size (a ∷ b ∷ p) ≡ ntohs (a ∷ b ∷ [])
unfolding payload16_size
payload16_size_lem a b p = ntohs-cons a b p

data_len_lem :
    (a b : ℕ) (p : List ℕ) (n : ℕ) → ntohs (a ∷ b ∷ []) ≡ n + 4 → payload16_data_len (a ∷ b ∷ p) ≡ n
unfolding payload16_data_len
data_len_lem a b p n e = omega (arith, ntohs-cons a b p, ntohs-lt (a ∷ b ∷ []))

pub size_lem : (n : ℕ) → n < 65532 → ntohs ((n + 4) / 256 % 256 ∷ (n + 4) % 256 ∷ []) ≡ n + 4
unfolding ntohs
size_lem n small = omega arith

-- The frames of datagrams, each with its sub type.
abbrev pub datagram_frames : List (ℕ × List ℕ) → List (List ℕ)
datagram_frames [] = []
datagram_frames ((k, d) ∷ ds) = frame b'o' k (length d) d ∷ datagram_frames ds

abbrev pub AllWithin : ℕ → List (ℕ × List ℕ) → Type 0
AllWithin max [] = Unit
AllWithin max ((k, d) ∷ ds) = (length d + 4 ≤ max) × AllWithin max ds

AllWithin-AllFrames :
    (max : ℕ) (ds : List (ℕ × List ℕ))
    → max < 65536
    → AllWithin max ds
    → AllFrames max (datagram_frames ds)
AllWithin-AllFrames max [] small within = tt
AllWithin-AllFrames max ((k, d) ∷ ds) small (fits, within) = (
  (
    ntohs-cons _ _ (b'o' ∷ k ∷ d) ∙ size_lem (length d) (omega arith) ∙ omega arith,
    omega arith,
    omega arith,
  ),
  AllWithin-AllFrames max ds small within,
)

module _ {W : Type 0} (sendto : Conn → List ℕ → W → Option ℕ × W) (set_event : Conn → W → W) where
  -- `tcp_to_udp` for the data `d` of a frame.
  abbrev send_data : List ℕ → Conn → W → Option (Conn × W)
  send_data d udp w =
      if ltb (buf_remain (zbuf_reset udp.send_zbuf)) (length d + 4)
      then some (record udp { send_zbuf = zbuf_reset udp.send_zbuf }, w)
      else (memcpy udp.send_zbuf.block 0 d >>= λ m. some (
          after_send sendto set_event (
            udp_send sendto set_event
              (record udp { send_zbuf = record { block = m; pos = 0; las = 0 + length d } }) w)))

  -- `tcp_to_udp` for what it reads of the payload.
  abbrev send_part : ℕ → ℕ → List ℕ → Conn → W → Option (Conn × W)
  send_part size len bytes udp w =
      if ltb (buf_remain (zbuf_reset udp.send_zbuf)) size
      then some (record udp { send_zbuf = zbuf_reset udp.send_zbuf }, w)
      else if ltb (length bytes) len
      then none
      else (memcpy udp.send_zbuf.block 0 (take len bytes) >>= λ m. some (
          after_send sendto set_event (
            udp_send sendto set_event
              (record udp { send_zbuf = record { block = m; pos = 0; las = 0 + len } }) w)))

  send_part-send_data :
      (d tail : List ℕ) (udp : Conn) (w : W)
      → send_part (length d + 4) (length d) (d ++ tail) udp w ≡ send_data d udp w
  send_part-send_data d tail udp w =
      let here : ltb (length (d ++ tail)) (length d) ≡ false =
        ground (arith, length-append d tail) in
      rw (here, take-append d tail (length d) refl) refl

  -- The bytes behind a frame are not read.
  tcp_to_udp-send_data :
      (a b t k : ℕ) (d tail : List ℕ) (udp : Conn) (w : W)
      → ntohs (a ∷ b ∷ []) ≡ length d + 4
      → tcp_to_udp sendto set_event (a ∷ b ∷ t ∷ k ∷ d ++ tail) udp w ≡ send_data d udp w
  unfolding tcp_to_udp
  tcp_to_udp-send_data a b t k d tail udp w size =
      let mem = a ∷ b ∷ t ∷ k ∷ d ++ tail in
      ap (λ n. send_part n (payload16_data_len mem) (d ++ tail) udp w)
        (payload16_size_lem a b (t ∷ k ∷ d ++ tail) ∙ size)
      ∙ ap (λ n. send_part (length d + 4) n (d ++ tail) udp w)
          (data_len_lem a b (t ∷ k ∷ d ++ tail) (length d) size)
      ∙ send_part-send_data d tail udp w

  pub server_callback-ReadsFrame : ReadsFrame (server_callback sendto set_event)
  unfolding server_callback server_tcp_to_udp
  server_callback-ReadsFrame q tail none size lt = refl
  server_callback-ReadsFrame [] tail (some n) size lt = absurd (omega arith)
  server_callback-ReadsFrame (a ∷ []) tail (some n) size lt = absurd (omega arith)
  server_callback-ReadsFrame (a ∷ b ∷ []) tail (some n) size lt = absurd (omega arith)
  server_callback-ReadsFrame (a ∷ b ∷ t ∷ []) tail (some n) size lt = absurd (omega arith)
  server_callback-ReadsFrame (a ∷ b ∷ t ∷ k ∷ d) tail (some n) size lt =
      let e : ntohs (a ∷ b ∷ []) ≡ length d + 4 =
        sym (ntohs-cons a b (t ∷ k ∷ d)) ∙ size ∙ omega arith in
      let same : tcp_to_udp sendto set_event (a ∷ b ∷ t ∷ k ∷ d ++ tail) n.udp_conn n.world
          ≡ tcp_to_udp sendto set_event (a ∷ b ∷ t ∷ k ∷ d) n.udp_conn n.world =
        tcp_to_udp-send_data a b t k d tail n.udp_conn n.world e
        ∙ sym (
            ap (λ x. tcp_to_udp sendto set_event (a ∷ b ∷ t ∷ k ∷ x) n.udp_conn n.world)
              (sym (append-nil d))
            ∙ tcp_to_udp-send_data a b t k d [] n.udp_conn n.world e) in
      ap
        (λ r.
          if t == b'o'
          then (r >>= λ (udp, w). some (record n { udp_conn = udp; world = w }))
          else if t == b'k'
          then server_handle_keepalive sendto set_event n
          else some n)
        same

  udp_send-sent :
      (udp : Conn) (w : W)
      → udp.fd_type ≡ udp4_socket
      → udp_send sendto set_event udp w
        ≡ sent sendto set_event udp (sendto udp (buf_bytes udp.send_zbuf) w)
  unfolding udp_send
  udp_send-sent udp w type =
      let now = sent sendto set_event udp (sendto udp (buf_bytes udp.send_zbuf) w) in
      let never = sent sendto set_event udp (some 0, w) in
      ap
        (λ t. elim t [
          | udp6_socket ↦ now
          | udp4_socket ↦ now
          | tcpv4_connect ↦ never
          | other_fd ↦ never
        ])
        type

  -- `sendto` takes the whole datagram.
  module _ (deliver : ℕ → List ℕ → W → W)
      (whole : (conn : Conn) (bytes : List ℕ) (w : W)
        → sendto conn bytes w ≡ (some (length bytes), deliver conn.remote bytes w)) where
    udp_send-deliver :
        (d : List ℕ) (remote room : ℕ) (udp : Conn) (w : W)
        → IsReady remote room udp
        → buf_bytes udp.send_zbuf ≡ d
        → (udp' : Conn) × (after_send sendto set_event (udp_send sendto set_event udp w)
            ≡ (udp', deliver remote d w))
          × IsReady remote room udp'
    unfolding sent after_send
    udp_send-deliver d remote room udp w (type, peer, size) bytes =
        let taken : sendto udp (buf_bytes udp.send_zbuf) w ≡ (some (length d), deliver remote d w) =
          ap (λ b. sendto udp b w) bytes
          ∙ whole udp d w
          ∙ ap (λ r. (some (length d), deliver r d w)) peer in
        rw (udp_send-sent udp w type, taken)
          (elim (Bool-cases (ltb 0 (length d))) [
            | inl some_bytes ↦ rw some_bytes (
              record udp { send_zbuf = _; n_send = _; n_send_total = _ },
              refl,
              (type, peer, size),
            )
            | inr empty ↦ rw empty (
              record udp { send_zbuf = _; n_send = _; n_send_total = _ },
              refl,
              (type, peer, size),
            )
          ])

    send_data-deliver :
        (d : List ℕ) (remote room : ℕ) (udp : Conn) (w : W)
        → IsReady remote room udp
        → length d + 4 ≤ room
        → (udp' : Conn) × (send_data d udp w ≡ some (udp', deliver remote d w))
          × IsReady remote room udp'
    unfolding buf_remain zbuf_reset buf_bytes buf_len
    send_data-deliver d remote room udp w (type, peer, size) fits =
        let fits' : ltb (length udp.send_zbuf.block - 0) (length d + 4) ≡ false = ground arith in
        let rest = drop (length d) udp.send_zbuf.block in
        let copied : memcpy udp.send_zbuf.block 0 d ≡ some (d ++ rest) =
          memcpy-append [] udp.send_zbuf.block d (omega arith) in
        let z : Zbuf = record { block = d ++ rest; pos = 0; las = 0 + length d } in
        let room' : room ≤ length (d ++ rest) =
          omega (arith, length-append d rest, length-drop (length d) udp.send_zbuf.block) in
        let (udp', e, ready) =
          udp_send-deliver d remote room (record udp { send_zbuf = z }) w (type, peer, room')
            (take-append d rest _ (omega arith)) in
        rw (fits', copied) (udp', ap some e, ready)

    server_callback-deliver :
        (k : ℕ) (d : List ℕ) (remote room : ℕ) (n : Server W)
        → IsReady remote room n.udp_conn
        → length d + 4 ≤ room
        → length d < 65532
        → (udp : Conn) × (server_callback sendto set_event (frame b'o' k (length d) d) (some n)
            ≡ some (record n { udp_conn = udp; world = deliver remote d n.world }))
          × IsReady remote room udp
    unfolding server_callback server_tcp_to_udp payload16_type
    server_callback-deliver k d remote room n ready fits small =
        let (udp, e, ready') = send_data-deliver d remote room n.udp_conn n.world ready fits in
        let out =
          ap (λ x. tcp_to_udp sendto set_event (frame b'o' k (length d) x) n.udp_conn n.world)
            (sym (append-nil d))
          ∙ tcp_to_udp-send_data _ _ b'o' k d [] n.udp_conn n.world (size_lem (length d) small)
          ∙ e in
        (
          udp,
          ap (λ r. r >>= λ (udp', w). some (record n { udp_conn = udp'; world = w })) out,
          ready',
        )

    -- The system after datagrams went out to `remote`.
    abbrev pub delivered : ℕ → List (ℕ × List ℕ) → W → W
    delivered remote ds w = foldl (λ w' d. deliver remote d.1 w') w ds

    relay_all :
        (max room remote : ℕ) (ds : List (ℕ × List ℕ)) (n : Server W)
        → max ≤ room
        → max < 65536
        → IsReady remote room n.udp_conn
        → AllWithin max ds
        → (udp : Conn) × (foldl
              (λ s q. server_callback sendto set_event q s)
              (some n)
              (datagram_frames ds)
            ≡ some (record n { udp_conn = udp; world = delivered remote ds n.world }))
          × IsReady remote room udp
    relay_all max room remote [] n le small ready within = (n.udp_conn, refl, ready)
    relay_all max room remote ((k, d) ∷ ds) n le small ready (fits, within) =
        let (udp, e, ready') =
          server_callback-deliver k d remote room n ready (omega arith) (omega arith) in
        let n' : Server W = record n { udp_conn = udp; world = deliver remote d n.world } in
        let (udp', e', ready'') = relay_all max room remote ds n' le small ready' within in
        (
          udp',
          ap (λ s. foldl (λ s' q. server_callback sendto set_event q s') s (datagram_frames ds)) e
              ∙ e',
          ready'',
        )

    -- For a system whose sendto takes every datagram whole, a context that holds nothing with a
    -- limit of at most 65535, datagrams that fit the limit with their heads, and a UDP connection
    -- over IPv4 whose send buffer has at least the size of the limit: however the stream of their
    -- frames is cut into chunks, the TCP side's callback under the successive calls of
    -- gnb_payload16_handle sends each datagram once, unchanged and in order to the peer of the UDP
    -- connection, and the rest of the channel's state stays.
    pub datagrams-arrive :
        (max room : ℕ) (c : Ctx) (n : Server W) (ds : List (ℕ × List ℕ)) (chunks : List (List ℕ))
        → c.max_payload_size ≡ max
        → max ≤ room
        → max < 65536
        → Holds c []
        → IsReady n.udp_conn.remote room n.udp_conn
        → AllWithin max ds
        → flatten chunks ≡ flatten (datagram_frames ds)
        → (c' : Ctx) × (udp : Conn) × (handle_all
              (server_callback sendto set_event)
              chunks
              c
              (some n)
            ≡ returned handled c' (
                some (record n { udp_conn = udp; world = delivered n.udp_conn.remote ds n.world })))
          × Holds c' []
          × IsReady n.udp_conn.remote room udp
    datagrams-arrive max room c n ds chunks e le small held ready within cut =
        let (c', returns, e', held') =
          frames-arrive max (server_callback sendto set_event) c chunks (datagram_frames ds)
            (some n) server_callback-ReadsFrame e held (AllWithin-AllFrames max ds small within)
            cut in
        let (udp, out, ready') = relay_all max room n.udp_conn.remote ds n le small ready within in
        (c', udp, returns ∙ ap (returned handled c') out, held', ready')
