-- ===== src/Payload/Faults.antt =====
-- A size of 1, which the checks of `gnb_payload16_handle` let pass.
use gnb_udp_over_tcp.Prelude.{
  ℕ, suc, ◌+◌, ◌-◌, ◌*◌, ◌≤◌, ◌≡◌, refl, ap, ◌∙◌, true, false, List, [], ◌∷◌, some, ltb, leb,
  length, take, memcpy, ntohs, arith,
}
use gnb_udp_over_tcp.Payload.{
  Ctx, Outcome, fault, leave, again, turn, handle_loop, loop_fuel, payload16_handle, check_size,
  head_status, part_status,
}
use gnb_udp_over_tcp.Payload.Held.{Holds}
use gnb_udp_over_tcp.Payload.Loop.{turn-head, turn-part}
use gnb_udp_over_tcp.Payload.Head.{start-copy, length-two, fill_buffer-copy}

module _ {ℓ} {S : Type ℓ} (cb : List ℕ → S → S) where
  one-check_size :
      (c : Ctx) (rest : List ℕ) (s : S)
      → c.buffer ≡ 0 ∷ 1 ∷ []
      → 1 ≤ c.max_payload_size
      → length c.payload ≡ c.max_payload_size + 4
      → (m : List ℕ) × (check_size cb c rest s ≡ again (record c { payload = m }) rest s)
  unfolding check_size ntohs
  one-check_size c rest s buf le size =
      let (tl, copied, size') = start-copy 0 cb c.payload 0 1 c.max_payload_size size in
      let copied' : memcpy c.payload 0 (take 2 c.buffer) ≡ some (0 ∷ 1 ∷ tl) = rw buf copied in
      let one : ntohs c.buffer ≡ 1 = rw buf in
      let fits : ltb c.max_payload_size 1 ≡ false = ground arith in
      (0 ∷ 1 ∷ tl, rw (one, fits, copied'))

  one-part_status :
      (c : Ctx) (rest : List ℕ) (s : S)
      → c.r_len ≡ 2
      → c.buffer ≡ 0 ∷ 1 ∷ []
      → 1 ≤ c.max_payload_size
      → part_status cb c rest s ≡ leave fault
  unfolding part_status ntohs
  one-part_status c rest s len buf le =
      let one : ntohs c.buffer ≡ 1 = rw buf in
      let fits : ltb c.max_payload_size 1 ≡ false = ground arith in
      let behind : ltb 1 c.r_len ≡ true = ground arith in rw (one, fits, behind)

  two_bytes-head_status :
      (c : Ctx) (x y : ℕ) (rest : List ℕ) (s : S)
      → Holds c []
      → turn cb c (x ∷ y ∷ rest) s
        ≡ check_size cb (record c { r_len = c.r_len + 2; buffer = x ∷ y ∷ [] }) rest s
  unfolding head_status memcpy
  two_bytes-head_status c x y rest s (len, two, size) =
      let (u, v, buf) = length-two 0 cb c.buffer two in
      let test : leb (2 - c.r_len) (length (x ∷ y ∷ rest)) ≡ true = ground arith in
      let need : 2 - c.r_len ≡ 2 = omega arith in
      let copied : memcpy c.buffer c.r_len (take 2 (x ∷ y ∷ rest)) ≡ some (x ∷ y ∷ []) =
        rw (len, buf) in
      turn-head cb c (x ∷ y ∷ rest) s (ground arith)
      ∙ rw (test, need, fill_buffer-copy 0 cb 2 c (x ∷ y ∷ rest) _ (x ∷ y ∷ []) copied)

  loop_again :
      (fuel : ℕ) (c : Ctx) (rest : List ℕ) (s : S) (c' : Ctx) (x : ℕ) (rest' : List ℕ) (s' : S)
      → turn cb c rest s ≡ again c' (x ∷ rest') s'
      → handle_loop cb (suc fuel) c rest s ≡ handle_loop cb fuel c' (x ∷ rest') s'
  unfolding handle_loop
  loop_again fuel c rest s c' x rest' s' h =
      let more : ltb 0 (length (x ∷ rest')) ≡ true = ground arith in rw (h, handle_loop, more)

  loop_leave :
      (fuel : ℕ) (c : Ctx) (rest : List ℕ) (s : S) (o : Outcome S)
      → turn cb c rest s ≡ leave o
      → handle_loop cb (suc fuel) c rest s ≡ o
  unfolding handle_loop
  loop_leave fuel c rest s o h = rw (h, handle_loop)

  one-loop :
      (fuel : ℕ) (c : Ctx) (x : ℕ) (rest : List ℕ) (s : S)
      → Holds c []
      → 1 ≤ c.max_payload_size
      → handle_loop cb (suc (suc fuel)) c (0 ∷ 1 ∷ x ∷ rest) s ≡ fault
  unfolding handle_loop
  one-loop fuel c x rest s held le =
      let c₁ : Ctx = record c { r_len = c.r_len + 2; buffer = 0 ∷ 1 ∷ [] } in
      let (m, passed) = one-check_size c₁ (x ∷ rest) s refl le held.2 in
      let c₂ : Ctx = record c₁ { payload = m } in
      let gone = one-part_status c₂ (x ∷ rest) s (omega arith) refl le in
      loop_again (suc fuel) c (0 ∷ 1 ∷ x ∷ rest) s c₂ x rest s
        (two_bytes-head_status c 0 1 (x ∷ rest) s held ∙ passed)
      ∙ loop_leave fuel c₂ (x ∷ rest) s fault (turn-part cb c₂ (x ∷ rest) s (ground arith) ∙ gone)

  one-handle :
      (c : Ctx) (bytes : List ℕ) (s : S)
      → c.r_len ≡ 0
      → ntohs bytes ≡ 1
      → payload16_handle cb bytes c s ≡ handle_loop cb (loop_fuel cb bytes) c bytes s
  unfolding payload16_handle
  one-handle c bytes s len one = ground arith

  -- For a context that holds nothing and a limit of at least 1, a chunk that starts with the size
  -- 1 and has at least one byte more makes gnb_payload16_handle copy outside of the payload block,
  -- whatever the rest of the chunk and the callback are: a frame size of 1 passes every check, and
  -- the length of the copy that follows is negative.
  pub size_one-fault :
      (c : Ctx) (x : ℕ) (rest : List ℕ) (s : S)
      → Holds c []
      → 1 ≤ c.max_payload_size
      → payload16_handle cb (0 ∷ 1 ∷ x ∷ rest) c s ≡ fault
  unfolding loop_fuel ntohs
  size_one-fault c x rest s held le =
      let fuel = 2 * length rest + 6 in
      let enough : loop_fuel cb (0 ∷ 1 ∷ x ∷ rest) ≡ suc (suc fuel) = omega arith in
      one-handle c (0 ∷ 1 ∷ x ∷ rest) s held.0 refl
      ∙ ap (λ n. handle_loop cb n c (0 ∷ 1 ∷ x ∷ rest) s) enough
      ∙ one-loop fuel c x rest s held le
