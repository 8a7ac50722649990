-- ===== src/Tunnel/Keepalive.antt =====
-- The keepalive frames of src/service/uot_udp_service.c: what `send_keepalive_frame` puts into the send
-- buffer.
use gnb_udp_over_tcp.Prelude.{
  ◌>>=◌, ℕ, ◌+◌, ◌-◌, ◌≤◌, ◌<◌, ◌≡◌, refl, ap, ◌∙◌, sym, true, false, Option, some, List, [], ◌∷◌,
  ◌++◌, ltb, length, length-append, length-take, length-drop, take, drop, take-append-drop,
  drop-append_left, append_assoc, arith, ◌⊎◌, inl, inr, Bool-cases,
}
use gnb_udp_over_tcp.Tunnel.{Zbuf, buf_remain, buf_bytes, Conn, put_frame, htonll_bytes}
use gnb_udp_over_tcp.Tunnel.UdpSide.{Client, send_keepalive_frame}
use gnb_udp_over_tcp.Tunnel.Enqueue.{frame, InBlock, put_frame-block, four_bytes, bytes_front}

-- The buffer with a frame of `len` bytes of data behind what it holds, of which `bytes` are written
-- and the rest is what stood there.
abbrev pub Filled : Zbuf → ℕ → ℕ → List ℕ → Zbuf → Type 0
Filled z type len bytes z' =
    InBlock z'
    × (k : ℕ) × (rest : List ℕ) × (length bytes + length rest ≡ len)
    × (buf_bytes z' ≡ buf_bytes z ++ frame type k len (bytes ++ rest))

-- Room for the whole frame is enough, also where fewer bytes are written.
pub put_frame-Filled :
    (z : Zbuf) (type len : ℕ) (bytes : List ℕ)
    → InBlock z
    → length bytes ≤ len
    → len + 4 ≤ buf_remain z
    → len < 65532
    → (z' : Zbuf) × (put_frame z type len bytes ≡ some z') × Filled z type len bytes z'
unfolding buf_remain
put_frame-Filled z type len bytes i le fits small =
    let p = take z.las z.block in
    let las : z.las ≡ length p = omega (arith, i.las_le, length-take z.las z.block) in
    let (a, b, c, k, room, rest) =
      four_bytes (drop z.las z.block) (omega (arith, length-drop z.las z.block)) in
    let block : z.block ≡ p ++ a ∷ b ∷ c ∷ k ∷ room =
      sym (take-append-drop z.las z.block) ∙ ap (λ t. p ++ t) rest in
    let space : length room + 4 ≡ length (drop z.las z.block) = omega (arith, ap length rest) in
    let free = length-drop z.las z.block in
    let fits' : length bytes ≤ length room = omega arith in
    let tail = drop (length bytes) room in
    let over = take (len - length bytes) tail in
    let behind = drop (len - length bytes) tail in
    let more : length over ≡ len - length bytes =
      omega (arith, length-take (len - length bytes) tail, length-drop (length bytes) room) in
    let f = frame type k len (bytes ++ over) in
    let z' : Zbuf = record z {
      block = (p ++ frame type k len bytes) ++ tail;
      las = z.las + (len + 4);
    } in
    let cut : z'.block ≡ (p ++ f) ++ behind =
      ap (λ t. (p ++ frame type k len bytes) ++ t)
        (sym (take-append-drop (len - length bytes) tail))
      ∙ sym (append_assoc (p ++ frame type k len bytes) over behind)
      ∙ ap (λ t. t ++ behind) (append_assoc p (frame type k len bytes) over) in
    let whole = length-append bytes over in
    let las' : z.las + (len + 4) ≡ length (p ++ f) = omega (arith, length-append p f) in
    (
      z',
      put_frame-block z p room bytes a b c k type len block las fits' small,
      (
        record {
          pos_le = omega (arith, i.pos_le);
          las_le = omega (arith, ap length cut, length-append (p ++ f) behind);
        },
        k,
        over,
        omega arith,
        bytes_front z' (p ++ f) behind cut las' (omega (arith, i.pos_le))
            ∙ drop-append_left p f z.pos (omega (arith, i.pos_le))
            ∙ ap (λ t. t ++ f) (sym (bytes_front z p _ block las i.pos_le)),
      ),
    )

length-htonll_bytes : (n : ℕ) → length (htonll_bytes n) ≡ 8
unfolding htonll_bytes
length-htonll_bytes n = refl

module _ {W : Type 0} (sendto : Conn → List ℕ → W → Option ℕ × W) (set_event : Conn → W → W) where
  -- A keepalive frame leaves the connection in place.
  abbrev pub Kept : Client W → Client W → Type 0
  Kept n n' =
      (tcp : Conn) × (n'.tcp_conn ≡ some tcp)
      × (n'.now_time_sec ≡ n.now_time_sec)
      × (n'.keepalive_ts_sec ≡ n.keepalive_ts_sec)

  abbrev pub keepalive_text : List ℕ
  keepalive_text = b'k' ∷ b'e' ∷ b'e' ∷ b'p' ∷ b'a' ∷ b'l' ∷ b'i' ∷ b'v' ∷ b'e' ∷ 0 ∷ []

  send_keepalive_frame-full :
      (tcp : Conn) (n : Client W)
      → tcp.has_zbufs ≡ true
      → ltb (buf_remain tcp.send_zbuf) 28 ≡ true
      → send_keepalive_frame sendto set_event tcp n
        ≡ some (record n { world = set_event tcp n.world })
  unfolding send_keepalive_frame
  send_keepalive_frame-full tcp n there full = rw (there, full) refl

  send_keepalive_frame-put_frame :
      (tcp : Conn) (n : Client W)
      → tcp.has_zbufs ≡ true
      → ltb (buf_remain tcp.send_zbuf) 28 ≡ false
      → send_keepalive_frame sendto set_event tcp n ≡ (
          put_frame tcp.send_zbuf b'k' 24 (htonll_bytes n.now_time_sec ++ keepalive_text) >>= λ z.
          some (record n {
            tcp_conn = some (record tcp { send_zbuf = z });
            world = set_event tcp n.world;
          }))
  unfolding send_keepalive_frame
  send_keepalive_frame-put_frame tcp n there room = rw (there, room) refl

  -- What send_keepalive_frame does: where 28 bytes are free, the time and the text stand in a frame
  -- of 24 bytes of data behind the bytes of the send buffer; where they are not, no frame is put.
  abbrev pub KeepaliveSent : Conn → Client W → Client W → Type 0
  KeepaliveSent tcp n n' =
      ((buf_remain tcp.send_zbuf < 28) × (n' ≡ record n { world = set_event tcp n.world }))
      ⊎ ((28 ≤ buf_remain tcp.send_zbuf)
          × (z : Zbuf) × Filled tcp.send_zbuf b'k' 24
              (htonll_bytes n.now_time_sec ++ keepalive_text) z
          × (n' ≡ record n {
            tcp_conn = some (record tcp { send_zbuf = z });
            world = set_event tcp n.world;
          }))

  pub send_keepalive_frame-lem :
      (tcp : Conn) (n : Client W)
      → n.tcp_conn ≡ some tcp
      → tcp.has_zbufs ≡ true
      → InBlock tcp.send_zbuf
      → (n' : Client W) × (send_keepalive_frame sendto set_event tcp n ≡ some n')
        × Kept n n'
        × KeepaliveSent tcp n n'
  send_keepalive_frame-lem tcp n here there i =
      elim (Bool-cases (ltb (buf_remain tcp.send_zbuf) 28)) [
        | inl full ↦ (
          _,
          send_keepalive_frame-full tcp n there full,
          (tcp, here, refl, refl),
          inl (ground (arith, full), refl),
        )
        | inr room ↦
            let short : length (htonll_bytes n.now_time_sec ++ keepalive_text) ≤ 24 = omega (
              arith,
              length-append (htonll_bytes n.now_time_sec) keepalive_text,
              length-htonll_bytes n.now_time_sec,
            ) in
            let enough : 28 ≤ buf_remain tcp.send_zbuf = ground (arith, room) in
            let (z, e, filled) =
              put_frame-Filled tcp.send_zbuf b'k' 24 (htonll_bytes n.now_time_sec ++ keepalive_text)
                i short enough (omega arith) in
            rw (send_keepalive_frame-put_frame tcp n there room, e)
              (
                record n {
                  tcp_conn = some (record tcp { send_zbuf = z });
                  world = set_event tcp n.world;
                },
                refl,
                (record tcp { send_zbuf = z }, refl, refl, refl),
                inr (enough, z, filled, refl),
              )
      ]
