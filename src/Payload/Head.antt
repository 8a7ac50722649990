-- ===== src/Payload/Head.antt =====
-- GNB_FRAME_STATUS_HEAD: a round that fills the two bytes of the size.
use gnb_udp_over_tcp.Prelude.{
  ℕ, ◌+◌, ◌-◌, ◌*◌, ◌<◌, ◌≡◌, refl, ap, true, false, List, [], ◌∷◌, some, ltb, leb, ◌==◌, length,
  take, drop, length-drop, Bool-cases, memcpy, memcpy-append, memcpy-nil, ntohs, ntohs-lt, sym,
  arith, inl, inr,
}
use gnb_udp_over_tcp.Payload.{max_frame_size, Ctx, Turn, check_size, fill_buffer, head_status}
use gnb_udp_over_tcp.Payload.Stream.{pending, admit, push, feed}
use gnb_udp_over_tcp.Payload.Held.{Holds, weight, Sound, Follows-Sound}
use gnb_udp_over_tcp.Payload.Feed.{feed-refused, feed-undersized}

module _ {ℓ} {S : Type ℓ} (max : ℕ) (cb : List ℕ → S → S) where
  -- The size goes to the start of the payload block.
  pub start-copy :
      (block : List ℕ) (a a' k : ℕ)
      → length block ≡ k + 4
      → (tail : List ℕ) × (memcpy block 0 (a ∷ a' ∷ []) ≡ some (a ∷ a' ∷ tail))
        × (length (a ∷ a' ∷ tail) ≡ k + 4)
  start-copy block a a' k size =
      let src = a ∷ a' ∷ [] in
      (drop 2 block, memcpy-append [] block src (omega arith), omega (arith, length-drop 2 block))

  check_size-Sound :
      (c : Ctx) (a a' : ℕ) (rest : List ℕ) (s : S) (w : ℕ)
      → c.max_payload_size ≡ max
      → c.r_len ≡ 2
      → c.buffer ≡ a ∷ a' ∷ []
      → length c.payload ≡ c.max_payload_size + 4
      → 2 * length rest + 1 < w
      → Sound max cb (feed max cb (admit max cb (a ∷ a' ∷ []) s) rest) w (check_size cb c rest s)
  unfolding check_size admit
  check_size-Sound c a a' rest s w e len buf size lt =
      let n = ntohs c.buffer in
      let same : ntohs (a ∷ a' ∷ []) ≡ n = sym (ap ntohs buf) in
      let small : ltb max_frame_size n ≡ false = ground (arith, ntohs-lt c.buffer) in
      let (tl, copied, size') = start-copy c.payload a a' c.max_payload_size size in
      let copied' : memcpy c.payload 0 (take 2 c.buffer) ≡ some (a ∷ a' ∷ tl) = rw buf copied in
      let bound : ltb max n ≡ ltb c.max_payload_size n = rw (← e) in
      rw (same, small, bound)
        (elim (Bool-cases (n == 0)) [
          | inl zeroed ↦ rw (zeroed, feed-refused max cb 1 s rest) (c, refl)
          | inr nonzero ↦ rw nonzero (elim (Bool-cases (ltb c.max_payload_size n)) [
            | inl large ↦ rw (large, feed-refused max cb 3 s rest) (c, refl)
            | inr fits ↦ rw fits (elim (Bool-cases (ltb n 4)) [
              | inl under ↦ rw (under, feed-undersized max cb rest) tt
              | inr over ↦
                  rw (over, copied')
                    (Follows-Sound max cb (feed max cb (pending (a ∷ a' ∷ []) s) rest) w _ (
                      a ∷ a' ∷ [],
                      (len, buf, ground arith, ground arith, size', tl, refl),
                      e,
                      refl,
                      lt,
                    ))
            ])
          ])
        ])

  pub length-two : (b : List ℕ) → length b ≡ 2 → (x y : ℕ) × (b ≡ x ∷ y ∷ [])
  length-two [] h = absurd (omega arith)
  length-two (x ∷ []) h = absurd (omega arith)
  length-two (x ∷ y ∷ []) h = (x, y, refl)
  length-two (x ∷ y ∷ z ∷ b) h = absurd (omega arith)

  pub fill_buffer-copy :
      (n : ℕ) (c : Ctx) (rest : List ℕ) (next : Ctx → List ℕ → Turn S) (b : List ℕ)
      → memcpy c.buffer c.r_len (take n rest) ≡ some b
      → fill_buffer cb n c rest next
        ≡ next (record c { r_len = c.r_len + n; buffer = b }) (drop n rest)
  unfolding fill_buffer
  fill_buffer-copy n c rest next b h = rw (h, fill_buffer)

  pub head-Sound :
      (c : Ctx) (p rest : List ℕ) (s : S)
      → length p < 2
      → c.max_payload_size ≡ max
      → Holds c p
      → Sound max cb (feed max cb (pending p s) rest) (weight p rest) (head_status cb c rest s)
  unfolding head_status feed push memcpy
  head-Sound c [] [] s lt e (len, two, size) =
      let test : leb (2 - c.r_len) 0 ≡ false = ground arith in
      let copied : memcpy c.buffer c.r_len [] ≡ some c.buffer = memcpy-nil c.buffer c.r_len in
      rw (test, fill_buffer-copy 0 c [] _ c.buffer copied)
        (record c { r_len = _; buffer = _ }, refl, e, (omega arith, two, size))
  head-Sound c [] (x ∷ []) s lt e (len, two, size) =
      let (u, v, buf) = length-two c.buffer two in
      let test : leb (2 - c.r_len) 1 ≡ false = ground arith in
      let copied : memcpy c.buffer c.r_len (x ∷ []) ≡ some (x ∷ v ∷ []) = rw (len, buf) in
      rw (test, fill_buffer-copy 1 c (x ∷ []) _ (x ∷ v ∷ []) copied)
        (record c { r_len = _; buffer = _ }, refl, e, (omega arith, size, v, refl))
  head-Sound c [] (x ∷ y ∷ rest) s lt e (len, two, size) =
      let (u, v, buf) = length-two c.buffer two in
      let test : leb (2 - c.r_len) (length (x ∷ y ∷ rest)) ≡ true = ground arith in
      let need : 2 - c.r_len ≡ 2 = omega arith in
      let copied : memcpy c.buffer c.r_len (take 2 (x ∷ y ∷ rest)) ≡ some (x ∷ y ∷ []) =
        rw (len, buf) in
      rw (test, need, fill_buffer-copy 2 c (x ∷ y ∷ rest) _ (x ∷ y ∷ []) copied)
        (check_size-Sound (record c { r_len = _; buffer = x ∷ y ∷ [] }) x y rest s
          (weight [] (x ∷ y ∷ rest)) e (omega arith) refl size (omega arith))
  head-Sound c (a ∷ []) [] s lt e (len, size, j, buf) =
      let test : leb (2 - c.r_len) 0 ≡ false = ground arith in
      let copied : memcpy c.buffer c.r_len [] ≡ some (a ∷ j ∷ []) = ap some buf in
      rw (test, fill_buffer-copy 0 c [] _ (a ∷ j ∷ []) copied)
        (record c { r_len = _; buffer = _ }, refl, e, (omega arith, size, j, refl))
  head-Sound c (a ∷ []) (x ∷ rest) s lt e (len, size, j, buf) =
      let test : leb (2 - c.r_len) (length (x ∷ rest)) ≡ true = ground arith in
      let need : 2 - c.r_len ≡ 1 = omega arith in
      let copied : memcpy c.buffer c.r_len (take 1 (x ∷ rest)) ≡ some (a ∷ x ∷ []) =
        rw (len, buf) in
      rw (test, need, fill_buffer-copy 1 c (x ∷ rest) _ (a ∷ x ∷ []) copied)
        (check_size-Sound (record c { r_len = _; buffer = a ∷ x ∷ [] }) a x rest s
          (weight (a ∷ []) (x ∷ rest)) e (omega arith) refl size (omega arith))
  head-Sound c (a ∷ a' ∷ p) rest s lt e held = absurd (omega arith)
