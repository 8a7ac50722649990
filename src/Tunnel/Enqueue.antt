-- ===== src/Tunnel/Enqueue.antt =====
-- `handle_udp` of both services: the datagram is a frame at the end of the send buffer.
use gnb_udp_over_tcp.Prelude.{
  ◌>>=◌, ℕ, ◌+◌, ◌-◌, ◌/◌, ◌%◌, ◌≤◌, ◌<◌, ◌≡◌, refl, ap, ◌∙◌, sym, false, Option, some, List, [],
  ◌∷◌, ◌++◌, ltb, length, length-append, length-take, length-drop, take, drop, take-append-drop,
  take-append, drop-append, drop-append_left, memcpy, memcpy-append, ntohs, append_assoc, arith,
}
use gnb_udp_over_tcp.Payload.{payload16_set_data_len, payload16_size, put_size}
use gnb_udp_over_tcp.Tunnel.{
  Zbuf, zbuf_reset, buf_len, buf_remain, buf_size, buf_bytes, Conn, put_frame, handle_udp,
}

-- The frame of `len` bytes of data with the sub type `k`.
abbrev pub frame : ℕ → ℕ → ℕ → List ℕ → List ℕ
frame type k len bytes = (len + 4) / 256 % 256 ∷ (len + 4) % 256 ∷ type ∷ k ∷ bytes

-- The two pointers stand in order within the block.
pub record InBlock (z : Zbuf) : Type 0 where
  pub pos_le : z.pos ≤ z.las
  pub las_le : z.las ≤ length z.block

memcpy_at :
    (p tail src : List ℕ) (off : ℕ)
    → off ≡ length p
    → length src ≤ length tail
    → memcpy (p ++ tail) off src ≡ some ((p ++ src) ++ drop (length src) tail)
memcpy_at p tail src off e fits = rw e (memcpy-append p tail src fits)

reassoc :
    (p room : List ℕ) (hi lo type k : ℕ)
    → ((p ++ hi ∷ lo ∷ []) ++ type ∷ []) ++ k ∷ room ≡ (p ++ hi ∷ lo ∷ type ∷ k ∷ []) ++ room
reassoc [] room hi lo type k = refl
reassoc (x ∷ p) room hi lo type k = ap (λ t. x ∷ t) (reassoc p room hi lo type k)

pub put_frame-block :
    (z : Zbuf) (p room bytes : List ℕ) (a b c k type len : ℕ)
    → z.block ≡ p ++ a ∷ b ∷ c ∷ k ∷ room
    → z.las ≡ length p
    → length bytes ≤ length room
    → len < 65532
    → put_frame z type len bytes
      ≡ some (record z {
        block = (p ++ frame type k len bytes) ++ drop (length bytes) room;
        las = z.las + (len + 4);
      })
unfolding put_frame payload16_set_data_len payload16_size put_size ntohs
put_frame-block z p room bytes a b c k type len block las fits small =
    let hi = (len + 4) / 256 % 256 in
    let lo = (len + 4) % 256 in
    let head = p ++ hi ∷ lo ∷ [] in
    let whole = p ++ hi ∷ lo ∷ type ∷ k ∷ [] in
    let rest = drop (length bytes) room in
    let one : memcpy (p ++ a ∷ b ∷ c ∷ k ∷ room) (length p) (hi ∷ lo ∷ [])
        ≡ some (head ++ c ∷ k ∷ room) =
      memcpy_at p (a ∷ b ∷ c ∷ k ∷ room) (hi ∷ lo ∷ []) _ refl (omega arith) in
    let two : memcpy (head ++ c ∷ k ∷ room) (length p + 2) (type ∷ [])
        ≡ some ((head ++ type ∷ []) ++ k ∷ room) =
      memcpy_at head (c ∷ k ∷ room) (type ∷ []) _ (omega (arith, length-append p (hi ∷ lo ∷ [])))
        (omega arith) in
    let three : memcpy (whole ++ room) (length p + 4) bytes ≡ some ((whole ++ bytes) ++ rest) =
      memcpy_at whole room bytes _ (omega (arith, length-append p (hi ∷ lo ∷ type ∷ k ∷ [])))
        fits in
    let frame_e : whole ++ bytes ≡ p ++ frame type k len bytes = append_assoc p _ _ in
    let tail_e : drop (length p) ((p ++ frame type k len bytes) ++ rest)
        ≡ frame type k len bytes ++ rest =
      ap (drop (length p)) (append_assoc p _ _) ∙ drop-append p _ (length p) refl in
    rw (block, las, one, two, reassoc p room hi lo type k, three, frame_e, tail_e)
      (ap
        (λ n. some (record z { block = (p ++ frame type k len bytes) ++ rest; las = length p + n }))
        (omega arith))

pub four_bytes :
    (xs : List ℕ) → 3 < length xs → (a b c k : ℕ) × (room : List ℕ) × (xs ≡ a ∷ b ∷ c ∷ k ∷ room)
four_bytes [] h = absurd (omega arith)
four_bytes (a ∷ []) h = absurd (omega arith)
four_bytes (a ∷ b ∷ []) h = absurd (omega arith)
four_bytes (a ∷ b ∷ c ∷ []) h = absurd (omega arith)
four_bytes (a ∷ b ∷ c ∷ k ∷ room) h = (a, b, c, k, room, refl)

-- The bytes between the pointers, for a block that is cut at `las`.
pub bytes_front :
    (z : Zbuf) (p q : List ℕ)
    → z.block ≡ p ++ q
    → z.las ≡ length p
    → z.pos ≤ z.las
    → buf_bytes z ≡ drop z.pos p
unfolding buf_bytes buf_len
bytes_front z p q block las le =
    rw (block, drop-append_left p q z.pos (omega arith))
      (take-append (drop z.pos p) q _ (omega (arith, length-drop z.pos p)))

-- The buffer with the frame behind what it holds.
abbrev pub Enqueued : Zbuf → ℕ → ℕ → List ℕ → Zbuf → Type 0
Enqueued z type len bytes z' =
    InBlock z'
    × (z'.pos ≡ z.pos)
    × (length z'.block ≡ length z.block)
    × (buf_remain z' + (len + 4) ≡ buf_remain z)
    × (k : ℕ) × (buf_bytes z' ≡ buf_bytes z ++ frame type k len bytes)

pub put_frame-Enqueued :
    (z : Zbuf) (type : ℕ) (bytes : List ℕ)
    → InBlock z
    → length bytes + 4 ≤ buf_remain z
    → length bytes < 65532
    → (z' : Zbuf) × (put_frame z type (length bytes) bytes ≡ some z')
      × Enqueued z type (length bytes) bytes z'
unfolding buf_remain
put_frame-Enqueued z type bytes i fits small =
    let p = take z.las z.block in
    let las : z.las ≡ length p = omega (arith, i.las_le, length-take z.las z.block) in
    let (a, b, c, k, room, rest) =
      four_bytes (drop z.las z.block) (omega (arith, length-drop z.las z.block)) in
    let block : z.block ≡ p ++ a ∷ b ∷ c ∷ k ∷ room =
      sym (take-append-drop z.las z.block) ∙ ap (λ t. p ++ t) rest in
    let space : length room + 4 ≡ length (drop z.las z.block) = omega (arith, ap length rest) in
    let fits' : length bytes ≤ length room = omega (arith, length-drop z.las z.block) in
    let len = length bytes in
    let q = p ++ frame type k len bytes in
    let tail = drop len room in
    let z' : Zbuf = record z { block = q ++ tail; las = z.las + (len + 4) } in
    let las' : z.las + (len + 4) ≡ length q =
      omega (arith, length-append p (frame type k len bytes)) in
    let size : length (q ++ tail) ≡ length z.block = omega (
      arith,
      length-append q tail,
      length-drop len room,
      ap length block,
      length-append p (a ∷ b ∷ c ∷ k ∷ room),
    ) in
    (
      z',
      put_frame-block z p room bytes a b c k type len block las fits' small,
      (
        record { pos_le = omega (arith, i.pos_le); las_le = omega (arith, length-append q tail) },
        refl,
        size,
        omega arith,
        k,
        bytes_front z' q tail refl las' (omega (arith, i.pos_le))
            ∙ drop-append_left p (frame type k len bytes) z.pos (omega (arith, i.pos_le))
            ∙ ap (λ t. t ++ frame type k len bytes) (sym (bytes_front z p _ block las i.pos_le)),
      ),
    )

pub length-buf_bytes : (z : Zbuf) → InBlock z → length (buf_bytes z) ≡ buf_len z
unfolding buf_bytes buf_len
length-buf_bytes z i = omega (
  arith,
  i.pos_le,
  i.las_le,
  length-take (z.las - z.pos) (drop z.pos z.block),
  length-drop z.pos z.block,
)

module _ {W : Type 0} (sendto : Conn → List ℕ → W → Option ℕ × W) (set_event : Conn → W → W) where
  pub handle_udp-put_frame :
      (udp tcp : Conn) (w : W)
      → buf_len udp.recv_zbuf ≤ buf_remain tcp.send_zbuf
      → handle_udp sendto set_event udp tcp w ≡ (
          put_frame tcp.send_zbuf b'o' (buf_len udp.recv_zbuf) (buf_bytes udp.recv_zbuf) >>= λ z.
          some (
            (record udp { recv_zbuf = zbuf_reset udp.recv_zbuf }, record tcp { send_zbuf = z }),
            set_event tcp w,
          ))
  unfolding handle_udp buf_remain buf_size
  handle_udp-put_frame udp tcp w fits =
      let whole : ltb (length tcp.send_zbuf.block) (udp.recv_zbuf.las - udp.recv_zbuf.pos) ≡ false =
        ground arith in
      let room : ltb (length tcp.send_zbuf.block - tcp.send_zbuf.las)
            (udp.recv_zbuf.las - udp.recv_zbuf.pos)
          ≡ false =
        ground arith in
      rw (whole, room) refl

  -- For a datagram below 65532 bytes in the receive buffer and a send buffer with room for it and
  -- for four bytes more, both with their pointers in order within their blocks: handle_udp empties
  -- the receive buffer and enables the write event; the bytes of the send buffer are those that it
  -- held and, behind them, the frame of type 'o' with the length, any sub type and the datagram;
  -- its pointers stay in order.
  pub handle_udp-enqueues :
      (udp tcp : Conn) (w : W)
      → InBlock udp.recv_zbuf
      → InBlock tcp.send_zbuf
      → buf_len udp.recv_zbuf + 4 ≤ buf_remain tcp.send_zbuf
      → buf_len udp.recv_zbuf < 65532
      → (z : Zbuf) × (handle_udp sendto set_event udp tcp w
          ≡ some (
            (record udp { recv_zbuf = zbuf_reset udp.recv_zbuf }, record tcp { send_zbuf = z }),
            set_event tcp w,
          ))
        × Enqueued tcp.send_zbuf b'o' (buf_len udp.recv_zbuf) (buf_bytes udp.recv_zbuf) z
  handle_udp-enqueues udp tcp w i j fits small =
      let d = buf_bytes udp.recv_zbuf in
      let len = length-buf_bytes udp.recv_zbuf i in
      let (z, e, q) = put_frame-Enqueued tcp.send_zbuf b'o' d j (omega arith) (omega arith) in
      rw (handle_udp-put_frame udp tcp w (omega arith), sym len, e) (z, refl, q)
