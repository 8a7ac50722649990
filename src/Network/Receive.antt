-- ===== src/Network/Receive.antt =====
-- `do_recv` and the closing of a connection in src/gnb_network_service.c.
use gnb_udp_over_tcp.Prelude.{
  ℕ, ◌+◌, ◌-◌, ◌%◌, ◌^◌, ◌≡◌, ◌≤◌, refl, ap, ◌∙◌, sym, true, Option, some, List, [], ◌∷◌, ◌++◌,
  length, length-append, length-take, take, drop, take-append-drop, take-append, drop-append,
  memcpy, memcpy-append, append_assoc, arith, ◌>>=◌,
}
use gnb_udp_over_tcp.Tunnel.{Zbuf, buf_remain, buf_bytes, buf_len}
use gnb_udp_over_tcp.Network.{
  Connection, State, Callback, Received, got, type_eof, with_event_bit, has_bit, with_bit,
}
use gnb_udp_over_tcp.Network.Transfer.{store_tcp, received, do_recv}

-- What a read of an empty buffer stores.
store_tcp-bytes :
    (bytes : List ℕ) (z : Zbuf)
    → z.pos ≡ z.las
    → z.las ≤ length z.block
    → length bytes ≤ length z.block - z.las
    → (z' : Zbuf) × (store_tcp bytes z ≡ some z') × (buf_bytes z' ≡ bytes) × (z'.pos ≡ z.pos)
unfolding store_tcp buf_bytes buf_len
store_tcp-bytes bytes z empty within fits =
    let p = take z.las z.block in
    let tail = drop z.las z.block in
    let whole : p ++ tail ≡ z.block = take-append-drop z.las z.block in
    let len : length p ≡ z.las = omega (arith, length-take z.las z.block, within) in
    let size : length z.block ≡ length p + length tail =
      ap length (sym whole) ∙ length-append p tail in
    let block = p ++ bytes ++ drop (length bytes) tail in
    let copies : memcpy z.block z.las bytes ≡ some block =
      ap (λ m. memcpy m z.las bytes) (sym whole)
      ∙ ap (λ k. memcpy (p ++ tail) k bytes) (sym len)
      ∙ memcpy-append p tail bytes (omega (arith, fits, len, size)) in
    (
      record z { block = block; las = z.pos + length bytes },
      ap (λ o. o >>= λ m. some (record z { block = m; las = z.pos + length bytes })) copies,
      ap (λ k. take k (drop z.pos block)) (omega arith)
          ∙ ap (λ l. take (length bytes) (drop z.pos l))
              (append_assoc p bytes (drop (length bytes) tail))
          ∙ ap (take (length bytes))
              (drop-append p (bytes ++ drop (length bytes) tail) z.pos (omega (arith, len, empty)))
          ∙ take-append bytes (drop (length bytes) tail) (length bytes) refl,
      refl,
    )

bit_set : (ev_type : ℕ) → has_bit type_eof (with_bit type_eof ev_type) ≡ true
bit_set ev_type = ground arith

module _ {W : Type 0} (recv : ℕ → ℕ → W → Received × W) (recv_cb : Callback W) (s : State W)
    (conn : Connection) (z : Zbuf) (here : s.conn ≡ some conn)
    (buffer : conn.recv_zbuf ≡ some z) where
  answer : Received × W
  answer = recv s.event.fd (buf_remain z) s.world

  by_answer :
      (r : Received) (w : W)
      → answer ≡ (r, w)
      → do_recv recv recv_cb s ≡ received recv recv_cb conn z r (record s { world = w })
  unfolding do_recv answer
  by_answer r w e =
      let go = λ (c : Connection) (z : Zbuf).
        let r = recv s.event.fd (buf_remain z) s.world in
        received recv recv_cb c z r.0 (record s { world = r.1 }) in
      ap (λ (o : Option Connection). o >>= λ c. c.recv_zbuf >>= go c) here
      ∙ ap (λ (o : Option Zbuf). o >>= go conn) buffer
      ∙ ap (λ (a : Received × W). received recv recv_cb conn z a.0 (record s { world = a.1 })) e

  -- For a connection whose receive buffer is empty, with its pointers within its block: when recv
  -- gives bytes, at least one and no more than there is room for, do_recv is the receive callback
  -- on the connection whose buffer holds just these bytes and whose n_recv_total has grown by
  -- their number modulo 2 ^ 64, with its send buffer and its status as they were.
  pub do_recv-delivers :
      (b : ℕ) (bytes : List ℕ) (w : W)
      → z.pos ≡ z.las
      → z.las ≤ length z.block
      → length (b ∷ bytes) ≤ length z.block - z.las
      → recv s.event.fd (buf_remain z) s.world ≡ (got (b ∷ bytes), w)
      → (conn' : Connection) × (z' : Zbuf) × (do_recv recv recv_cb s
          ≡ recv_cb (record s { conn = some conn'; world = w }))
        × (conn'.recv_zbuf ≡ some z')
        × (buf_bytes z' ≡ b ∷ bytes)
        × (conn'.n_recv_total ≡ (conn.n_recv_total + length (b ∷ bytes)) % 2 ^ 64)
        × (conn'.send_zbuf ≡ conn.send_zbuf)
        × (conn'.status ≡ conn.status)
  unfolding received answer
  do_recv-delivers b bytes w empty within fits gets =
      let (z', stores, are, start) = store_tcp-bytes (b ∷ bytes) z empty within fits in
      let n = length (b ∷ bytes) in
      let conn' = record conn {
        recv_zbuf = some z';
        n_recv = n;
        n_recv_total = (conn.n_recv_total + n) % 2 ^ 64;
      } in
      (
        conn',
        z',
        by_answer (got (b ∷ bytes)) w gets
            ∙ ap
                (λ o. o >>= λ z₁. recv_cb (record s {
                  conn = some (record conn {
                    recv_zbuf = some z₁;
                    n_recv = n;
                    n_recv_total = (conn.n_recv_total + n) % 2 ^ 64;
                  });
                  world = w;
                }))
                stores,
        refl,
        are,
        refl,
        refl,
        refl,
      )

  -- A peer that has closed: the event gets the bit for the end.
  pub do_recv-closed :
      (w : W)
      → recv s.event.fd (buf_remain z) s.world ≡ (got [], w)
      → (s' : State W) × (do_recv recv recv_cb s ≡ some s')
        × (s'.conn ≡ some conn)
        × (has_bit type_eof s'.event.ev_type ≡ true)
  unfolding received answer
  do_recv-closed w gets = (
    with_event_bit type_eof (record s { world = w }),
    by_answer (got []) w gets,
    here,
    bit_set s.event.ev_type,
  )
