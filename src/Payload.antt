-- ===== src/Payload.antt =====
-- gnb_payload16.c: frames with a four byte head, and the reassembly of frames from a TCP stream.
-- A `gnb_payload16_t` is the list of the bytes of its memory block: `size` (two bytes, big endian),
-- `type`, `sub_type`, `data`.
pub mod Codec
pub mod Stream
pub mod Held
pub mod Feed
pub mod Part
pub mod Head
pub mod Loop
pub mod Handle
pub mod Chunks
pub mod Faults
mod Tests
use gnb_udp_over_tcp.Prelude.{
  ℕ, zero, suc, ◌+◌, ◌-◌, ◌*◌, ◌/◌, ◌%◌, ◌≡◌, Bool, true, false, ◌&&◌, List, [], ◌∷◌, ◌++◌, Option,
  none, some, ltb, leb, ◌==◌, if◌then◌else◌, length, get_or, set, take, drop, replicate, memcpy,
  ntohs,
}

abbrev pub head_size : ℕ
head_size = 4

abbrev pub max_frame_size : ℕ
max_frame_size = 65535

-- `*(uint16_t *)p = htons(n)`
unfoldable pub put_size : List ℕ → ℕ → List ℕ
put_size p n = set (set p 0 (n / 256 % 256)) 1 (n % 256)

unfoldable pub payload16_init : ℕ → ℕ → List ℕ
unfolding put_size
payload16_init type data_size =
    put_size (set (replicate (head_size + data_size) 0) 2 type) (head_size + data_size)

-- `none` is a copy that leaves the block.
unfoldable pub payload16_create : ℕ → List ℕ → Option (List ℕ)
unfolding payload16_init memcpy
payload16_create type bytes = memcpy (payload16_init type (length bytes)) head_size bytes

-- The copy has as many bytes as the size field says; `none` is a read behind the block.
unfoldable pub payload16_dup : List ℕ → Option (List ℕ)
payload16_dup p = if ltb (length p) (ntohs p) then none else some (take (ntohs p) p)

unfoldable pub payload16_set_size : List ℕ → ℕ → List ℕ × ℕ
unfolding put_size
payload16_set_size p new_size = (put_size p new_size, new_size)

unfoldable pub payload16_size : List ℕ → ℕ
payload16_size p = ntohs p

-- `new_len + 4` is an `int`; `htons` takes its low 16 bits.
unfoldable pub payload16_set_data_len : List ℕ → ℕ → List ℕ × ℕ
unfolding put_size
payload16_set_data_len p new_len = (put_size p (new_len + head_size), new_len)

-- The difference is stored in a `uint16_t`.
unfoldable pub payload16_data_len : List ℕ → ℕ
payload16_data_len p = (ntohs p + 65536 - head_size) % 65536

unfoldable pub payload16_type : List ℕ → ℕ
payload16_type p = get_or p 2 0

unfoldable pub payload16_data : List ℕ → List ℕ
payload16_data p = drop head_size p

-- `gnb_payload16_ctx_t` without `udata`, which is the state `S` below.
pub record Ctx : Type 0 where
  pub r_len : ℕ
  pub buffer : List ℕ
  pub payload : List ℕ
  pub max_payload_size : ℕ

-- `junk` is what `malloc` left in the buffer.
unfoldable pub ctx_init : List ℕ → ℕ → Ctx
unfolding payload16_init
ctx_init junk max = record {
  r_len = 0;
  buffer = junk;
  payload = payload16_init 0 max;
  max_payload_size = max;
}

-- What `gnb_payload16_handle` returns: 0, or the negative number -n as `error n`.
pub data Ret : Type 0 where
  handled : Ret
  error : ℕ → Ret

pub data Outcome {ℓ} (S : Type ℓ) : Type ℓ where
  returned : Ret → Ctx → S → Outcome S
  -- a `memcpy` leaves its block
  fault : Outcome S
  out_of_fuel : Outcome S

-- How one round of the `do` loop ends.
pub data Turn {ℓ} (S : Type ℓ) : Type ℓ where
  leave : Outcome S → Turn S
  again : Ctx → List ℕ → S → Turn S

-- The bytes at `data + receive_bytes_offset` that remain are a list; the callback changes a state.
module _ {ℓ} {S : Type ℓ} (cb : List ℕ → S → S) where
  -- Once the two bytes of the size are there: the checks, and the copy into the payload.
  unfoldable pub check_size : Ctx → List ℕ → S → Turn S
  check_size c rest s =
      let frame_size = ntohs c.buffer in
      if frame_size == 0
      then leave (returned (error 1) c s)
      else if ltb max_frame_size frame_size
      then leave (returned (error 2) c s)
      else if ltb c.max_payload_size frame_size
      then leave (returned (error 3) c s)
      else elim (memcpy c.payload 0 (take 2 c.buffer)) [
        | none ↦ leave fault
        | some m ↦ again (record c { payload = m }) rest s
      ]

  -- `n` bytes into the buffer, of which `c.r_len` are set.
  unfoldable pub fill_buffer : ℕ → Ctx → List ℕ → (Ctx → List ℕ → Turn S) → Turn S
  fill_buffer n c rest next = elim (memcpy c.buffer c.r_len (take n rest)) [
    | none ↦ leave fault
    | some b ↦ next (record c { r_len = c.r_len + n; buffer = b }) (drop n rest)
  ]

  -- GNB_FRAME_STATUS_HEAD, reached with `r_len` below 2
  unfoldable pub head_status : Ctx → List ℕ → S → Turn S
  head_status c rest s =
      let need = 2 - c.r_len in
      if leb need (length rest)
      then fill_buffer need c rest (λ c' rest'. check_size c' rest' s)
      else fill_buffer (length rest) c rest (λ c' _. leave (returned handled c' s))

  -- GNB_FRAME_STATUS_PART. A size below `r_len` makes the length of the copy negative, as a `size_t`
  -- far above any block.
  unfoldable pub part_status : Ctx → List ℕ → S → Turn S
  part_status c rest s =
      let frame_size = ntohs c.buffer in
      let need = frame_size - c.r_len in
      if ltb c.max_payload_size frame_size
      then leave (returned (error 4) c s)
      else if ltb frame_size c.r_len
      then leave fault
      else if leb need (length rest)
      then elim (memcpy c.payload c.r_len (take need rest)) [
        | none ↦ leave fault
        | some m ↦ again (record c { r_len = 0; payload = m }) (drop need rest) (cb m s)
      ]
      else elim (memcpy c.payload c.r_len rest) [
        | none ↦ leave fault
        | some m ↦
            leave (returned handled (record c { r_len = c.r_len + length rest; payload = m }) s)
      ]

  unfoldable pub turn : Ctx → List ℕ → S → Turn S
  unfolding check_size fill_buffer head_status part_status
  turn c rest s = if leb 2 c.r_len then part_status c rest s else head_status c rest s

  unfoldable pub handle_loop : ℕ → Ctx → List ℕ → S → Outcome S
  handle_loop zero c rest s = out_of_fuel
  handle_loop (suc fuel) c rest s = elim (turn c rest s) [
    | leave o ↦ o
    | again c' rest' s' ↦ elim (ltb 0 (length rest')) [
      | true ↦ handle_loop fuel c' rest' s'
      | false ↦ returned handled c' s'
    ]
  ]

  -- A byte takes at most two rounds.
  unfoldable pub loop_fuel : List ℕ → ℕ
  loop_fuel bytes = 2 * length bytes + 2

  unfoldable pub payload16_handle : List ℕ → Ctx → S → Outcome S
  unfolding turn handle_loop loop_fuel
  payload16_handle bytes c s =
      let slow = handle_loop (loop_fuel bytes) c bytes s in
      let frame_size = ntohs bytes in
      let data_size = length bytes in
      if (c.r_len == 0) && ltb head_size data_size
      then (if frame_size == 0
          then returned (error 1) c s
          else if ltb max_frame_size frame_size
          then returned (error 2) c s
          else if frame_size == data_size
          then (if ltb c.max_payload_size frame_size
              then returned (error 3) c s
              else elim (memcpy c.payload 0 bytes) [
                | none ↦ fault
                | some m ↦ returned handled (record c { payload = m }) (cb m s)
              ])
          else slow)
      else slow
